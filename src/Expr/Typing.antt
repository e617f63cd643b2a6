-- ===== src/Expr/Typing.antt =====
-- `type` of expressions and declarations (librumur/src/Expr.cc, Number.cc, Decl.cc), and coercion
-- between the types of two expressions.
pub mod Unbounded
use rumur.Prelude.{Bool, true, false, if◌then◌else◌, String, str_eq, [], ◌∷◌}
use rumur.Prelude.Results.{
  Result, ok, err, unresolved_symbol, unresolved_type, unresolved_call, unresolved_ampersand,
  unresolved_pipe, procedure_has_no_type, not_a_record, not_an_array, no_such_field, ◌>>=◌,
}
use rumur.Ast.{
  Expr, ternary, binary, unary, expr_id, field, element, function_call, exists, forall, is_member,
  number, BinaryExpr, boolean, comparison, equatable, arithmetic, ambiguous_amp, ambiguous_pipe,
  UnaryExpr, negative, bnot, is_undefined, ExprDecl, alias_decl, const_decl, var_decl, null_decl,
  ptr_decl, VarDecl, var, VarDecls, nil_vars, cons_vars, null_function, ptr_function, TypeExpr,
  range, enum, record_type, array, type_expr_id, union, null_type, ptr_type, null_type_decl,
  ptr_type_decl, TypeExprs, nil_types, cons_types,
}
use rumur.Gmp.{Gmp}
use rumur.TypeExpr.Resolve.{resolve, is_range, is_boolean, as_record, as_array}
use rumur.TypeExpr.Coerce.{coerces_to}

-- The type of an expression: one that the model declares, or the range without bounds,
-- `Range(nullptr, nullptr)`, of numbers and of what is computed from them.
pub data ExprType : Type 0 where
  declared : TypeExpr → ExprType
  unbounded : ExprType

-- `Boolean` of librumur/src/Boolean.cc
abbrev pub boolean_type : TypeExpr
boolean_type = enum ("false" ∷ "true" ∷ [])

-- the loop over the fields of a record
unfoldable pub field_type : String → VarDecls → Result TypeExpr
field_type name nil_vars = err (no_such_field name)
field_type name (cons_vars (var f t _ _) vs) = if str_eq f name then ok t else field_type name vs

unfoldable pub resolve_type : ExprType → Result ExprType
unfolding resolve
resolve_type (declared t) = do r ← resolve t; ok (declared r)
resolve_type unbounded = ok unbounded

-- the types that an expression on a record or on an array has, from the type of the record or array
unfoldable pub type_of_field : String → ExprType → Result ExprType
unfolding field_type
type_of_field name (declared (record_type fields)) = do t ← field_type name fields; ok (declared t)
type_of_field name _ = err not_a_record

unfoldable pub type_of_element : ExprType → Result ExprType
type_of_element (declared (array _ t)) = ok (declared t)
type_of_element _ = err not_an_array

unfoldable mutual
  unfolding resolve_type type_of_field type_of_element

  pub type : Expr → Result ExprType
  type (ternary _ l _) = type l
  type (binary (boolean _) _ _) = ok (declared boolean_type)
  type (binary (comparison _) _ _) = ok (declared boolean_type)
  type (binary (equatable _) _ _) = ok (declared boolean_type)
  type (binary (arithmetic _) _ _) = ok unbounded
  type (binary ambiguous_amp _ _) = err unresolved_ampersand
  type (binary ambiguous_pipe _ _) = err unresolved_pipe
  type (unary negative _) = ok unbounded
  type (unary bnot _) = ok unbounded
  type (unary _ _) = ok (declared boolean_type)
  type (expr_id id null_decl) = err (unresolved_symbol id)
  type (expr_id _ (ptr_decl d)) = get_type d
  type (field record_expr name) = do
    root ← type record_expr
    resolved ← resolve_type root
    type_of_field name resolved
  type (element array_expr _) = do
    root ← type array_expr
    resolved ← resolve_type root
    type_of_element resolved
  type (function_call name null_function _ _) = err (unresolved_call name)
  type (function_call _ (ptr_function _ _ _ null_type _ _) _ _) = err procedure_has_no_type
  type (function_call _ (ptr_function _ _ _ (ptr_type t) _ _) _ _) = ok (declared t)
  type (exists _ _) = ok (declared boolean_type)
  type (forall _ _) = ok (declared boolean_type)
  type (is_member _ _) = ok (declared boolean_type)
  type (number _) = ok unbounded

  pub get_type : ExprDecl → Result ExprType
  get_type (alias_decl _ value) = type value
  get_type (const_decl _ value null_type) = type value
  get_type (const_decl _ _ (ptr_type t)) = ok (declared t)
  get_type (var_decl (var _ t _ _)) = ok (declared t)

unfoldable pub type_is_boolean : ExprType → Bool
unfolding is_boolean
type_is_boolean (declared t) = is_boolean t
type_is_boolean unbounded = false

unfoldable pub expr_is_boolean : Expr → Result Bool
unfolding type type_is_boolean
expr_is_boolean e = do t ← type e; r ← resolve_type t; ok (type_is_boolean r)

-- `coerces_to` between a declared type and the range without bounds, in either order: a range, or a
-- union with such a member.
unfoldable mutual
  pub has_range : TypeExpr → Result Bool
  has_range (type_expr_id name null_type_decl) = err (unresolved_type name)
  has_range (type_expr_id name (ptr_type_decl _ t)) = has_range t
  has_range (union members) = any_has_range members
  has_range t = ok (is_range t)

  pub any_has_range : TypeExprs → Result Bool
  any_has_range nil_types = ok false
  any_has_range (cons_types m ms) = do
    yes' ← has_range m
    if yes' then ok true else any_has_range ms

unfoldable pub type_coerces_to : Gmp → ExprType → ExprType → Result Bool
unfolding coerces_to has_range
type_coerces_to g (declared s) (declared t) = coerces_to g s t
type_coerces_to g (declared s) unbounded = has_range s
type_coerces_to g unbounded (declared t) = has_range t
type_coerces_to g unbounded unbounded = ok true
