-- ===== src/TypeExpr/Resolve.antt =====
-- `TypeExpr::resolve` and the checks of a type's class: a chain of names leads to a type.
use rumur.Prelude.{Bool, true, false, Option, none, some, List, [], ◌∷◌, String, ◌&&◌, str_eq}
use rumur.Prelude.Results.{Result, ok, err, unresolved_type}
use rumur.Ast.{
  Expr, TypeExpr, range, scalarset, enum, record_type, array, type_expr_id, union, null_type_decl,
  ptr_type_decl, VarDecls, TypeExprs,
}

unfoldable pub resolve : TypeExpr → Result TypeExpr
resolve (type_expr_id name null_type_decl) = err (unresolved_type name)
resolve (type_expr_id name (ptr_type_decl _ t)) = resolve t
resolve t = ok t

-- `dynamic_cast` to each class
abbrev pub as_range : TypeExpr → Option (Expr × Expr)
as_range (range min max) = some (min, max)
as_range _ = none

abbrev pub as_scalarset : TypeExpr → Option Expr
as_scalarset (scalarset bound) = some bound
as_scalarset _ = none

abbrev pub as_enum : TypeExpr → Option (List String)
as_enum (enum members) = some members
as_enum _ = none

abbrev pub as_record : TypeExpr → Option VarDecls
as_record (record_type fields) = some fields
as_record _ = none

abbrev pub as_array : TypeExpr → Option (TypeExpr × TypeExpr)
as_array (array index element) = some (index, element)
as_array _ = none

abbrev pub as_union : TypeExpr → Option TypeExprs
as_union (union members) = some members
as_union _ = none

abbrev pub is_range : TypeExpr → Bool
is_range (range _ _) = true
is_range _ = false

-- The test of the source is on the names of the two members.
unfoldable pub is_boolean : TypeExpr → Bool
is_boolean (enum (a ∷ b ∷ [])) = str_eq a "false" && str_eq b "true"
is_boolean _ = false
