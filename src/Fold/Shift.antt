-- ===== src/Fold/Shift.antt =====
-- `lshift` and `rshift` of librumur/src/Expr.cc, for counts of any size.
use mathlib.Core.WellFounded.{Acc}
use rumur.Prelude.{ℕ, suc, ◌-◌, ◌≤◌, ◌<◌, dite, dec_le, arith}
use rumur.Prelude.Int.{ℤ, pos, negsuc}
use rumur.Prelude.Order.{lt_wf}
use rumur.Gmp.{Gmp}
pub mod Laws

module _ (g : Gmp) where
  open g use {mul_2exp, fdiv_q_2exp, ulong_max, ulong_max_pos}

  pub rest-lt : (b : ℕ) → ¬ (b ≤ ulong_max) → b - ulong_max < b
  rest-lt b big = omega (arith, ulong_max_pos)

  pub big-lt : (b : ℕ) → ¬ (b ≤ ulong_max) → ulong_max < b
  big-lt b big = omega arith

  -- `lshift` once `b` is not negative: `while (!b.fits_ulong_p())`, then GMP's shift
  lshift_loop : (b : ℕ) → Acc ◌<◌ b → ℤ → ℤ
  lshift_loop b (Acc.intro _ smaller) a =
      dite (dec_le b ulong_max) (λ _. mul_2exp a b)
        (λ big.
          lshift_loop (b - ulong_max) (smaller (b - ulong_max) (rest-lt b big))
            (lshift_loop ulong_max (smaller ulong_max (big-lt b big)) a))

  rshift_loop : (b : ℕ) → Acc ◌<◌ b → ℤ → ℤ
  rshift_loop b (Acc.intro _ smaller) a =
      dite (dec_le b ulong_max) (λ _. fdiv_q_2exp a b)
        (λ big.
          rshift_loop (b - ulong_max) (smaller (b - ulong_max) (rest-lt b big))
            (rshift_loop ulong_max (smaller ulong_max (big-lt b big)) a))

  -- A negative count shifts the other way.
  unfoldable pub lshift : ℤ → ℤ → ℤ
  unfolding lshift_loop rshift_loop lt_wf
  lshift a (pos b) = lshift_loop b (lt_wf.apply b) a
  lshift a (negsuc b) = rshift_loop (suc b) (lt_wf.apply (suc b)) a

  unfoldable pub rshift : ℤ → ℤ → ℤ
  unfolding lshift_loop rshift_loop lt_wf
  rshift a (pos b) = rshift_loop b (lt_wf.apply b) a
  rshift a (negsuc b) = lshift_loop (suc b) (lt_wf.apply (suc b)) a
