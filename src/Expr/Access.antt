-- ===== src/Expr/Access.antt =====
-- `Field::validate` and `Element::validate` (librumur/src/Expr.cc), and that they accept what has a type.
use rumur.Prelude.{◌≡◌, ◌↔◌, refl, Bool-cases, not, inl, inr, if◌then◌else◌, String, str_eq}
use rumur.Prelude.Results.{Result, ok, err, invalid, no_such_field, throw_if, ◌>>=◌, >>=-eq-ok}
use rumur.Ast.{
  Expr, field, element, VarDecls, nil_vars, cons_vars, var, TypeExpr, range, scalarset, enum,
  record_type, array, type_expr_id, union,
}
use rumur.Gmp.{Gmp}
use rumur.Expr.Typing.{
  ExprType, declared, unbounded, field_type, resolve_type, type_of_field, type_of_element, type,
  type_coerces_to,
}

-- the loop over the fields
unfoldable pub validate_name : String → VarDecls → Result (Unit {0})
validate_name name nil_vars = err (no_such_field name)
validate_name name (cons_vars (var f _ _ _) vs) =
    if str_eq f name then ok tt else validate_name name vs

-- the tests on the resolved type of the record or the array
unfoldable pub validate_record : String → ExprType → Result (Unit {0})
unfolding validate_name
validate_record name (declared (record_type fields)) = validate_name name fields
validate_record name _ = err (invalid "left hand side of field expression is not a record")

unfoldable pub validate_field : Expr → String → Result (Unit {0})
unfolding validate_record type
validate_field record_expr name = do
  t ← type record_expr
  root ← resolve_type t
  validate_record name root

unfoldable pub validate_array : Gmp → Expr → ExprType → Result (Unit {0})
unfolding type type_coerces_to
validate_array g index (declared (array index_type _)) = do
  i ← type index
  coerces ← type_coerces_to g i (declared index_type)
  throw_if (not coerces) (invalid "array indexed using an expression of incorrect type")
validate_array g index _ = err (invalid "array index on an expression that is not an array")

unfoldable pub validate_element : Gmp → Expr → Expr → Result (Unit {0})
unfolding validate_array type
validate_element g array_expr index = do
  t ← type array_expr
  root ← resolve_type t
  validate_array g index root

name-type :
    (name : String) (vs : VarDecls)
    → (validate_name name vs ≡ ok tt) ↔ ((t : TypeExpr) × (field_type name vs ≡ ok t))
unfolding validate_name field_type
name-type name nil_vars = (λ h. cc, λ (t, h). cc)
name-type name (cons_vars (var f t _ _) vs) = elim (Bool-cases (str_eq f name)) [
  | inl same ↦ (λ h. (t, rw same refl), λ h. rw same refl)
  | inr other ↦ rw other (name-type name vs)
]

record-type :
    (name : String) (root : ExprType)
    → (validate_record name root ≡ ok tt) ↔ ((t : ExprType) × (type_of_field name root ≡ ok t))
unfolding validate_record type_of_field
record-type name (declared (record_type fields)) = (
  λ h. let (t, e) = (name-type name fields).0 h in (declared t, rw e refl),
  λ (t, h).
      let (s, e, _) = >>=-eq-ok (field_type name fields) _ h in (name-type name fields).1 (s, e),
)
record-type name unbounded = (λ h. cc, λ (t, h). cc)
record-type name (declared (range _ _)) = (λ h. cc, λ (t, h). cc)
record-type name (declared (scalarset _)) = (λ h. cc, λ (t, h). cc)
record-type name (declared (enum _)) = (λ h. cc, λ (t, h). cc)
record-type name (declared (array _ _)) = (λ h. cc, λ (t, h). cc)
record-type name (declared (type_expr_id _ _)) = (λ h. cc, λ (t, h). cc)
record-type name (declared (union _)) = (λ h. cc, λ (t, h). cc)

-- validate accepts a field of an expression exactly when the field has a type.
pub validate_field-type :
    (record_expr : Expr) (name : String)
    → (validate_field record_expr name ≡ ok tt)
      ↔ ((t : ExprType) × (type (field record_expr name) ≡ ok t))
unfolding validate_field type
validate_field-type record_expr name = (
  λ valid.
      let (s, es, valid1) = >>=-eq-ok (type record_expr) _ valid in
      let (root, er, valid2) = >>=-eq-ok (resolve_type s) _ valid1 in
      rw (es, er) ((record-type name root).0 valid2),
  λ (t, typed).
      let (s, es, typed1) = >>=-eq-ok (type record_expr) _ typed in
      let (root, er, typed2) = >>=-eq-ok (resolve_type s) _ typed1 in
      rw (es, er) ((record-type name root).1 (t, typed2)),
)

array-type :
    (g : Gmp) (index : Expr) (root : ExprType)
    → validate_array g index root ≡ ok tt
    → (t : ExprType) × (type_of_element root ≡ ok t)
unfolding validate_array type_of_element
array-type g index (declared (array _ t)) h = (declared t, refl)
array-type g index unbounded h = cc
array-type g index (declared (range _ _)) h = cc
array-type g index (declared (scalarset _)) h = cc
array-type g index (declared (enum _)) h = cc
array-type g index (declared (record_type _)) h = cc
array-type g index (declared (type_expr_id _ _)) h = cc
array-type g index (declared (union _)) h = cc

-- An element of an array that validate accepts has a type.
pub validate_element-type :
    (g : Gmp) (array_expr index : Expr)
    → validate_element g array_expr index ≡ ok tt
    → (t : ExprType) × (type (element array_expr index) ≡ ok t)
unfolding validate_element type
validate_element-type g array_expr index valid =
    let (s, es, valid1) = >>=-eq-ok (type array_expr) _ valid in
    let (root, er, valid2) = >>=-eq-ok (resolve_type s) _ valid1 in
    rw (es, er) (array-type g index root valid2)
