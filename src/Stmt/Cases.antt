-- ===== src/Stmt/Cases.antt =====
-- What validate requires of a switch.
use rumur.Prelude.{◌≡◌, ◌↔◌, refl, ◌∙◌, true, not, ap}
use rumur.Prelude.Results.{ok, throw_if, >>=-eq-ok}
use rumur.Ast.{Expr, Exprs, nil_exprs, cons_exprs, SwitchCases, nil_cases, cons_cases}
use rumur.Gmp.{Gmp}
use rumur.Expr.Typing.{ExprType, type, type_coerces_to}
use rumur.Stmt.{type_is_simple, validate_matches, validate_cases, validate_switch}
use rumur.Stmt.Target.{accepted}

module _ (g : Gmp) where
  -- Every expression of a list, and of all cases, has a type to which a type coerces.
  abbrev pub AllMatch : ExprType → Exprs → Type 0
  AllMatch t nil_exprs = Unit
  AllMatch t (cons_exprs e es) =
      ((s : ExprType) × (type e ≡ ok s) × (type_coerces_to g t s ≡ ok true)) × AllMatch t es

  abbrev pub AllCasesMatch : ExprType → SwitchCases → Type 0
  AllCasesMatch t nil_cases = Unit
  AllCasesMatch t (cons_cases es _ cs) = AllMatch t es × AllCasesMatch t cs

  validate_matches_iff :
      (t : ExprType) (es : Exprs) → (validate_matches g t es ≡ ok tt) ↔ AllMatch t es
  unfolding validate_matches
  validate_matches_iff t nil_exprs = (λ h. tt, λ h. refl)
  validate_matches_iff t (cons_exprs e es) = (
    λ valid.
        let (s, es', valid1) = >>=-eq-ok (type e) _ valid in
        let (b, eb, valid2) = >>=-eq-ok (type_coerces_to g t s) _ valid1 in
        let (_, yes', valid3) = >>=-eq-ok (throw_if (not b) _) _ valid2 in
        ((s, es', eb ∙ ap ok (accepted b _ yes')), (validate_matches_iff t es).0 valid3),
    λ ((s, es', eb), rest). rw (es', eb) ((validate_matches_iff t es).1 rest),
  )

  validate_cases_iff :
      (t : ExprType) (cs : SwitchCases) → (validate_cases g t cs ≡ ok tt) ↔ AllCasesMatch t cs
  unfolding validate_cases
  validate_cases_iff t nil_cases = (λ h. tt, λ h. refl)
  validate_cases_iff t (cons_cases es _ cs) = (
    λ valid.
        let (_, matches, valid1) = >>=-eq-ok (validate_matches g t es) _ valid in
        ((validate_matches_iff t es).0 matches, (validate_cases_iff t cs).0 valid1),
    λ (matches, rest).
        rw ((validate_matches_iff t es).1 matches) ((validate_cases_iff t cs).1 rest),
  )

  -- validate accepts a switch exactly when its expression has a simple type that coerces to the type of
  -- every match of every case.
  pub validate_switch_iff :
      (e : Expr) (cs : SwitchCases)
      → (validate_switch g e cs ≡ ok tt)
        ↔ ((t : ExprType) × (type e ≡ ok t) × (type_is_simple t ≡ ok true) × AllCasesMatch t cs)
  unfolding validate_switch
  validate_switch_iff e cs = (
    λ valid.
        let (t, et, valid1) = >>=-eq-ok (type e) _ valid in
        let (b, eb, valid2) = >>=-eq-ok (type_is_simple t) _ valid1 in
        let (_, yes', valid3) = >>=-eq-ok (throw_if (not b) _) _ valid2 in
        (t, et, eb ∙ ap ok (accepted b _ yes'), (validate_cases_iff t cs).0 valid3),
    λ (t, et, eb, rest). rw (et, eb) ((validate_cases_iff t cs).1 rest),
  )
