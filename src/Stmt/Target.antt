-- ===== src/Stmt/Target.antt =====
-- What the statements that write a variable require of it.
use mathlib.Core.Option.{some-injective}
use rumur.Prelude.{
  ◌≡◌, ◌↔◌, refl, ◌∙◌, Bool, true, false, not, Option, none, some, String, Bool-cases, inl, inr, ap,
  arith,
}
use rumur.Prelude.Results.{Result, ok, throw_if, Error, invalid, ◌>>◌, >>=-eq-ok}
use rumur.Ast.{Expr, VarDecl}
use rumur.Gmp.{Gmp}
use rumur.Expr.{readonly}
use rumur.Expr.Root.{root, IsResolved, of_root, lvalue-root}
use rumur.Expr.Typing.{ExprType, type, type_coerces_to}
use rumur.Stmt.{validate_target, validate_clear, validate_undefine, validate_assignment}

-- An expression denotes a variable, or a part of one, that may be written.
abbrev pub IsWritable : Expr → Type 0
IsWritable e = (v : VarDecl) × (root e ≡ some v) × (readonly v ≡ false)

-- the tests on what the root says
abbrev target_tests : Error → Error → Option VarDecl → Result (Unit {0})
target_tests a b r =
    throw_if (not (of_root false (λ v. true) r)) a >> throw_if (of_root true readonly r) b

pub accepted : (b : Bool) (e : Error) → (throw_if (not b) e ≡ ok tt) → b ≡ true
accepted true e h = refl
accepted false e h = cc

target_tests_iff :
    (a b : Error) (r : Option VarDecl)
    → (target_tests a b r ≡ ok tt) ↔ ((v : VarDecl) × (r ≡ some v) × (readonly v ≡ false))
target_tests_iff a b none = (λ h. cc, λ (v, e, _). cc)
target_tests_iff a b (some v) = (
  λ h. elim (Bool-cases (readonly v)) [ inl fixed ↦ ground arith | inr free ↦ (v, refl, free) ],
  λ (w, e, free). rw (ap readonly (some-injective _ _ e) ∙ free) refl,
)

validate_target_iff :
    (non_lvalue read_only : String) (e : Expr)
    → IsResolved e
    → (validate_target non_lvalue read_only e ≡ ok tt) ↔ IsWritable e
unfolding validate_target
validate_target_iff non_lvalue read_only e h =
    let (p, q, _) = lvalue-root e h in
    rw (p, q) (target_tests_iff (invalid non_lvalue) (invalid read_only) (root e))

-- For an expression whose names are resolved down to its root: validate of a clear and of an undefine
-- accepts it exactly when it denotes a variable, or a part of one, that may be written.
pub validate_clear_iff :
    (e : Expr)
    → IsResolved e
    → ((validate_clear e ≡ ok tt) ↔ IsWritable e) × ((validate_undefine e ≡ ok tt) ↔ IsWritable e)
unfolding validate_clear validate_undefine
validate_clear_iff e h = (validate_target_iff _ _ e h, validate_target_iff _ _ e h)

-- Two expressions have types, and the type of the first coerces to that of the second.
abbrev pub IsCompatible : Gmp → Expr → Expr → Type 0
IsCompatible g lhs rhs =
    (s : ExprType) × (t : ExprType) × (type lhs ≡ ok s)
    × (type rhs ≡ ok t)
    × (type_coerces_to g s t ≡ ok true)

-- For a left-hand side whose names are resolved down to its root: validate accepts the assignment
-- exactly when the left-hand side denotes a variable, or a part of one, that may be written, and its
-- type coerces to that of the right-hand side.
pub validate_assignment_iff :
    (g : Gmp) (lhs rhs : Expr)
    → IsResolved lhs
    → (validate_assignment g lhs rhs ≡ ok tt) ↔ (IsWritable lhs × IsCompatible g lhs rhs)
unfolding validate_assignment
validate_assignment_iff g lhs rhs h = (
  λ valid.
      let (_, target, valid1) = >>=-eq-ok (validate_target _ _ lhs) _ valid in
      let (s, es, valid2) = >>=-eq-ok (type lhs) _ valid1 in
      let (t, et, valid3) = >>=-eq-ok (type rhs) _ valid2 in
      let (b, eb, valid4) = >>=-eq-ok (type_coerces_to g s t) _ valid3 in
      ((validate_target_iff _ _ lhs h).0 target, (s, t, es, et, eb ∙ ap ok (accepted b _ valid4))),
  λ (writable, (s, t, es, et, eb)).
      rw ((validate_target_iff _ _ lhs h).1 writable, es, et, eb) refl,
)
