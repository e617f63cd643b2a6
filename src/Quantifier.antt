-- ===== src/Quantifier.antt =====
-- `Quantifier::validate`, `constant`, and `count` (librumur/src/Expr.cc).
pub mod Loop
pub mod Count
use rumur.Prelude.{
  ℕ, zero, suc, Bool, true, false, if◌then◌else◌, not, ◌&&◌, ◌||◌, Option, none, some,
}
use rumur.Prelude.Int.{ℤ, pos, ◌+ℤ◌, ◌-ℤ◌, ltb_ℤ, leb_ℤ}
use rumur.Prelude.Results.{
  Result, ok, err, abort, uncountable, infinite_loop, ◌>>=◌, ◌>>◌, throw_if,
}
use rumur.Ast.{
  Expr, ExprPtr, null_expr, ptr_expr, TypeExprPtr, null_type, ptr_type, Quantifier, quantifier,
}
use rumur.Gmp.{Gmp}
use rumur.Fold.Operand.{is_zero}
use rumur.Fold.Dispatch.{constant, constant_fold}
use rumur.TypeExpr.Bounds.{is_simple, constant_type}
use rumur.TypeExpr.Size.{count}

-- `for (mpz_class i = lb; i <= ub; i += inc) c++;` with fuel; `none` is a loop that has not ended.
unfoldable pub count_loop : ℕ → ℤ → ℤ → ℤ → ℤ → Option ℤ
count_loop zero i ub inc c = none
count_loop (suc fuel) i ub inc c =
    let rest = count_loop fuel (i +ℤ inc) ub inc (c +ℤ pos 1) in if leb_ℤ i ub then rest else some c

abbrev pub is_null : ExprPtr → Bool
is_null null_expr = true
is_null (ptr_expr _) = false

module _ (g : Gmp) where
  -- `e != nullptr && e->constant()`
  abbrev pub is_known : ExprPtr → Bool
  is_known null_expr = false
  is_known (ptr_expr e) = constant g e

  -- `e == nullptr || e->constant()`
  abbrev pub no_unknown : ExprPtr → Bool
  no_unknown null_expr = true
  no_unknown (ptr_expr e) = constant g e

  -- the fold of a bound; a null one is dereferenced
  abbrev pub fold_ptr : ExprPtr → Result ℤ
  fold_ptr null_expr = abort
  fold_ptr (ptr_expr e) = constant_fold g e

  -- `step_const && step->constant_fold() ⋯ 0`
  abbrev pub step_test : ExprPtr → (ℤ → Bool) → Result Bool
  step_test step test = if is_known step then (do ok (test (← fold_ptr step))) else ok false

  unfoldable pub validate_quantifier : Quantifier → Result (Unit {0})
  validate_quantifier (quantifier _ _ from to step _) = do
    zero_step ← step_test step is_zero
    throw_if zero_step infinite_loop
    known_positive ← step_test step (λ v. ltb_ℤ (pos 0) v)
    let step_positive = is_null step || known_positive
    step_negative ← step_test step (λ v. ltb_ℤ v (pos 0))
    if is_known from && is_known to
        then (do
          lb ← fold_ptr from
          ub ← fold_ptr to
          throw_if (ltb_ℤ lb ub && step_negative) infinite_loop
          throw_if (ltb_ℤ ub lb && step_positive) infinite_loop)
        else ok tt

  -- the part of `Quantifier::constant` on the type
  abbrev pub type_known : TypeExprPtr → Result Bool
  type_known null_type = ok true
  type_known (ptr_type t) = do simple ← is_simple t; if simple then constant_type g t else abort

  unfoldable pub quantifier_constant : Quantifier → Result Bool
  quantifier_constant (quantifier _ type from to step _) = do
    known ← type_known type
    ok (known && no_unknown from && no_unknown to && no_unknown step)

  -- `step == nullptr ? 1 : step->constant_fold()`
  abbrev pub increment : ExprPtr → Result ℤ
  increment null_expr = ok (pos 1)
  increment (ptr_expr e) = constant_fold g e

  -- the value, or `none` if the loop has not ended after that many rounds
  unfoldable pub quantifier_count : ℕ → Quantifier → Result (Option ℤ)
  unfolding quantifier_constant count_loop
  quantifier_count fuel (quantifier x (ptr_type t) from to step d) = do
    known ← quantifier_constant (quantifier x (ptr_type t) from to step d)
    throw_if (not known) uncountable
    n ← count g t
    ok (some (n -ℤ pos 1))
  quantifier_count fuel (quantifier x null_type from to step d) = do
    known ← quantifier_constant (quantifier x null_type from to step d)
    throw_if (not known) uncountable
    lb ← fold_ptr from
    ub ← fold_ptr to
    inc ← increment step
    ok (count_loop fuel lb ub inc (pos 0))
