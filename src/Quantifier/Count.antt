-- ===== src/Quantifier/Count.antt =====
-- What `Quantifier::validate` accepts, and what `Quantifier::count` then returns.
use rumur.Prelude.{
  ℕ, suc, ◌≡◌, ◌≢◌, ◌↔◌, Bool, true, false, if◌then◌else◌, ◌&&◌, ◌||◌, String, some, none, refl,
  arith, ◌∙◌, ap,
}
use rumur.Prelude.Int.{ℤ, pos, negsuc, ◌+ℤ◌, ◌<ℤ◌, ltb_ℤ, ◌==ℤ◌, int_laws}
use rumur.Prelude.Results.{ok, err, infinite_loop}
use rumur.Ast.{Expr, ExprPtr, null_expr, ptr_expr, null_type, VarDecl, Quantifier, quantifier}
use rumur.Gmp.{Gmp}
use rumur.Fold.Dispatch.{constant, constant_fold}
use rumur.Quantifier.{
  count_loop, no_unknown, increment, validate_quantifier, quantifier_constant, quantifier_count,
}
use rumur.Quantifier.Loop.{Visits, count_loop-Visits, count_loop-diverges}

-- The step is not zero and leads from the start towards the end.
abbrev pub Advances : ℤ → ℤ → ℤ → Type 0
Advances lb ub inc = (inc ≢ pos 0) × (lb <ℤ ub → pos 0 <ℤ inc) × (ub <ℤ lb → inc <ℤ pos 0)

abbrev refuses : ℤ → ℤ → ℤ → Bool
refuses lb ub inc =
    (inc ==ℤ pos 0) || (ltb_ℤ lb ub && ltb_ℤ inc (pos 0)) || (ltb_ℤ ub lb && ltb_ℤ (pos 0) inc)

accepts_advancing : (lb ub inc : ℤ) → refuses lb ub inc ≡ false → Advances lb ub inc
accepts_advancing lb ub inc h = (λ e. ground arith, λ lt. ground arith, λ lt. ground arith)

refuses_inverted : (lb ub inc : ℤ) → Advances lb ub inc → refuses lb ub inc ≡ false
refuses_inverted lb ub inc (a, b, c) = ground arith

-- The bounds and the step of a quantifier are constants, with these values; a missing step is 1.
pub record Iterates (g : Gmp) (from to : Expr) (step : ExprPtr) (lb ub inc : ℤ) : Type 0 where
  pub from_known : constant g from ≡ true
  pub to_known : constant g to ≡ true
  pub step_known : no_unknown g step ≡ true
  pub from_folds : constant_fold g from ≡ ok lb
  pub to_folds : constant_fold g to ≡ ok ub
  pub step_folds : increment g step ≡ ok inc

abbrev pub quantified : String → Expr → Expr → ExprPtr → VarDecl → Quantifier
quantified x from to step d = quantifier x null_type (ptr_expr from) (ptr_expr to) step d

module _ (g : Gmp) (x : String) (from to : Expr) where
  validate_values :
      (step : ExprPtr) (d : VarDecl) (lb ub inc : ℤ)
      → Iterates g from to step lb ub inc
      → validate_quantifier g (quantified x from to step d)
        ≡ (if refuses lb ub inc then err infinite_loop else ok tt)
  unfolding validate_quantifier
  validate_values null_expr d lb ub inc it = ground arith
  validate_values (ptr_expr s) d lb ub inc it = ground arith

  -- A quantifier over constant bounds with a constant step is accepted by `validate` exactly when
  -- the step is not zero and does not lead away from the end.
  pub validate_iff :
      (step : ExprPtr) (d : VarDecl) (lb ub inc : ℤ)
      → Iterates g from to step lb ub inc
      → (validate_quantifier g (quantified x from to step d) ≡ ok tt) ↔ Advances lb ub inc
  validate_iff step d lb ub inc it =
      let e = validate_values step d lb ub inc it in
      (
        λ h. accepts_advancing lb ub inc (ground arith),
        λ a. rw (e, refuses_inverted lb ub inc a) refl,
      )

  count_values :
      (fuel : ℕ) (step : ExprPtr) (d : VarDecl) (lb ub inc : ℤ)
      → Iterates g from to step lb ub inc
      → quantifier_count g fuel (quantified x from to step d)
        ≡ ok (count_loop fuel lb ub inc (pos 0))
  unfolding quantifier_count quantifier_constant
  count_values fuel null_expr d lb ub inc it = ground arith
  count_values fuel (ptr_expr s) d lb ub inc it = ground arith

  -- Of a quantifier over constant bounds, the first below the second, with a constant step or none,
  -- that `validate` accepts, `count` returns how many values the iteration visits, given fuel for one
  -- round more than there are numbers from the one bound to the other.
  pub quantifier_count-validated :
      (fuel : ℕ) (step : ExprPtr) (d : VarDecl) (lb ub inc : ℤ)
      → Iterates g from to step lb ub inc
      → validate_quantifier g (quantified x from to step d) ≡ ok tt
      → lb <ℤ ub
      → ub +ℤ pos 1 <ℤ lb +ℤ pos fuel
      → (by : ℕ) × (n : ℕ) × (inc ≡ pos by)
        × (quantifier_count g fuel (quantified x from to step d) ≡ ok (some (pos n)))
        × Visits n lb ub by
  quantifier_count-validated fuel step d lb ub inc it valid lt enough =
      ascending inc ((validate_iff step d lb ub inc it).0 valid)
        (count_values fuel step d lb ub inc it)
    where
      ascending :
          (v : ℤ)
          → Advances lb ub v
          → quantifier_count g fuel (quantified x from to step d)
            ≡ ok (count_loop fuel lb ub v (pos 0))
          → (by : ℕ) × (n : ℕ) × (v ≡ pos by)
            × (quantifier_count g fuel (quantified x from to step d) ≡ ok (some (pos n)))
            × Visits n lb ub by
      ascending (pos by) (_, up, _) e =
          let (n, p, v) =
            count_loop-Visits fuel lb ub by 0 (omega (arith, up lt)) (omega (int_laws, enough))
              enough in
          (by, n, refl, e ∙ ap ok (p ∙ ap (λ k. some (pos k)) (omega arith)), v)
      ascending (negsuc k) (_, up, _) e = absurd (omega (arith, up lt))

  -- `validate` accepts a quantifier from a constant to itself by a negative constant step, and `count` never
  -- returns, whatever its fuel.
  pub quantifier_count-diverges :
      (fuel : ℕ) (step : ExprPtr) (d : VarDecl) (lb inc : ℤ)
      → Iterates g from to step lb lb inc
      → inc <ℤ pos 0
      → (validate_quantifier g (quantified x from to step d) ≡ ok tt)
        × (quantifier_count g fuel (quantified x from to step d) ≡ ok none)
  quantifier_count-diverges fuel step d lb inc it h = (
    (validate_iff step d lb lb inc it).1 (λ e. ground arith, λ lt. omega arith, λ lt. omega arith),
    count_values fuel step d lb lb inc it
        ∙ ap ok (count_loop-diverges fuel lb lb inc (pos 0) (omega arith) (omega arith)),
  )

  -- `validate` accepts a quantifier from a constant down to a smaller one by a negative constant step, and
  -- `count` returns 0.
  pub quantifier_count-descending :
      (fuel : ℕ) (step : ExprPtr) (d : VarDecl) (lb ub inc : ℤ)
      → Iterates g from to step lb ub inc
      → ub <ℤ lb
      → inc <ℤ pos 0
      → (validate_quantifier g (quantified x from to step d) ≡ ok tt)
        × (quantifier_count g (suc fuel) (quantified x from to step d) ≡ ok (some (pos 0)))
  unfolding count_loop
  quantifier_count-descending fuel step d lb ub inc it down h = (
    (validate_iff step d lb ub inc it).1 (λ e. ground arith, λ lt. omega arith, λ lt. h),
    count_values (suc fuel) step d lb ub inc it ∙ ground arith,
  )
