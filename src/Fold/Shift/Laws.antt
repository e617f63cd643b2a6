-- ===== src/Fold/Shift/Laws.antt =====
-- A shift by any count is one multiplication or one division, rounded down, by a power of two.
use mathlib.Core.WellFounded.{Acc}
use mathlib.Core.Logic.{dif_pos, dif_neg}
use native.Mathlib.Nat.{
  mul_assoc, mul_comm, mul-le-mul_right, le_of_mul-le-mul_right, lt_of_mul-lt-mul_right, one-le-pow,
}
use native.Mathlib.Bridge.{le_prop}
use rumur.Prelude.{ℕ, suc, ◌+◌, ◌-◌, ◌*◌, ◌^◌, ◌≤◌, ◌<◌, ◌≡◌, ap, sym, ◌∙◌, subst, dec_le, arith}
use rumur.Prelude.Int.{
  ℤ, pos, negsuc, pos_part, neg_part, eq_of_parts, ◌*ℤ◌, ◌+ℤ◌, ◌≤ℤ◌, ◌<ℤ◌, int_laws,
}
use rumur.Prelude.Bits.{pow-add}
use rumur.Prelude.Order.{lt_wf}
use rumur.Gmp.{Gmp, IsGmp}
use rumur.Fold.Shift.{rest-lt, big-lt, lshift_loop, rshift_loop, lshift, rshift}

pow_split : (k n : ℕ) → k ≤ n → 2 ^ k * 2 ^ (n - k) ≡ 2 ^ n
pow_split k n h = rw (← pow-add) (ap (λ m. 2 ^ m) (omega arith))

pub pos_part-scale : (a : ℤ) (m : ℕ) → pos_part (a *ℤ pos m) ≡ pos_part a * m
unfolding ◌*ℤ◌
pos_part-scale a m = ground arith

pub neg_part-scale : (a : ℤ) (m : ℕ) → neg_part (a *ℤ pos m) ≡ neg_part a * m
unfolding ◌*ℤ◌
neg_part-scale a m = ground arith

pub ruleset scale = (pos_part-scale, neg_part-scale)

scale_assoc : (a : ℤ) (m n : ℕ) → a *ℤ pos m *ℤ pos n ≡ a *ℤ pos (m * n)
scale_assoc a m n = eq_of_parts _ _ (simp (scale, mul_assoc))

scale_mono : (a b : ℤ) (m : ℕ) → a ≤ℤ b → a *ℤ pos m ≤ℤ b *ℤ pos m
scale_mono a b m h = simp scale (omega (arith, mul-le-mul_right m h))

-- `q` is `a / m`, rounded down.
abbrev pub IsFloor : ℤ → ℤ → ℕ → Type 0
IsFloor q a m = (q *ℤ pos m ≤ℤ a) × (a <ℤ (q +ℤ pos 1) *ℤ pos m)

-- Rounding down twice is rounding down once.
IsFloor-IsFloor : (q r a : ℤ) (m n : ℕ) → IsFloor r a m → IsFloor q r n → IsFloor q a (n * m)
IsFloor-IsFloor q r a m n h k =
    let low = scale_mono (q *ℤ pos n) r m k.0 in
    let high = scale_mono (r +ℤ pos 1) ((q +ℤ pos 1) *ℤ pos n) m (omega (int_laws, k.1)) in
    (
      subst (λ x. x ≤ℤ a) (scale_assoc q n m) (omega (arith, h.0, low)),
      subst (λ x. a <ℤ x) (scale_assoc (q +ℤ pos 1) n m) (omega (arith, h.1, high)),
    )

-- The quotient of a multiple is exact.
floor_exact : (q a : ℤ) (m : ℕ) → 0 < m → IsFloor q (a *ℤ pos m) m → q ≡ a
floor_exact q a m h f =
    let low : pos_part q + neg_part a ≤ pos_part a + neg_part q =
      le_of_mul-le-mul_right {k = m} (omega (arith, scale, f.0)) h in
    let high : pos_part a + neg_part (q +ℤ pos 1) < pos_part (q +ℤ pos 1) + neg_part a =
      lt_of_mul-lt-mul_right m (omega (arith, scale, f.1)) in
    omega int_laws

zero_scale : (m : ℕ) → pos 0 ≡ pos 0 *ℤ pos m
zero_scale m = eq_of_parts _ _ (simp scale (omega arith))

module _ (g : Gmp) (laws : IsGmp g) where
  lshift_loop_lem : (b : ℕ) (w : Acc ◌<◌ b) (a : ℤ) → lshift_loop g b w a ≡ a *ℤ pos (2 ^ b)
  unfolding lshift_loop
  lshift_loop_lem b (Acc.intro _ smaller) a = elim (dec_le b g.ulong_max) [
    | yes p ↦ rw (dif_pos _ le_prop p) (laws.mul_2exp_lem a b)
    | no p ↦ rw (dif_neg _ p) (
        lshift_loop_lem (b - g.ulong_max) (smaller (b - g.ulong_max) (rest-lt g b p))
          (lshift_loop g g.ulong_max (smaller g.ulong_max (big-lt g b p)) a)
        ∙ ap (λ x. x *ℤ pos (2 ^ (b - g.ulong_max)))
            (lshift_loop_lem g.ulong_max (smaller g.ulong_max (big-lt g b p)) a)
        ∙ scale_assoc a _ _
        ∙ ap (λ m. a *ℤ pos m) (pow_split g.ulong_max b (omega arith)))
  ]

  rshift_loop_lem : (b : ℕ) (w : Acc ◌<◌ b) (a : ℤ) → IsFloor (rshift_loop g b w a) a (2 ^ b)
  unfolding rshift_loop
  rshift_loop_lem b (Acc.intro _ smaller) a = elim (dec_le b g.ulong_max) [
    | yes p ↦ rw (dif_pos _ le_prop p) (laws.fdiv_q_2exp_low a b, laws.fdiv_q_2exp_high a b)
    | no p ↦
        let r = rshift_loop g g.ulong_max (smaller g.ulong_max (big-lt g b p)) a in
        rw (dif_neg _ p) (
          subst
            (λ m.
              IsFloor
                (rshift_loop g (b - g.ulong_max) (smaller (b - g.ulong_max) (rest-lt g b p)) r) a m)
            (mul_comm _ _ ∙ pow_split g.ulong_max b (omega arith))
            (IsFloor-IsFloor _ r a _ _
              (rshift_loop_lem g.ulong_max (smaller g.ulong_max (big-lt g b p)) a)
              (rshift_loop_lem (b - g.ulong_max) (smaller (b - g.ulong_max) (rest-lt g b p)) r)))
  ]

  -- `lshift` by a count that is not negative multiplies by that power of two, and by a negative
  -- count divides, rounded down; `rshift` divides, rounded down, or multiplies.
  pub shift_lem :
      (a : ℤ) (b : ℕ)
      → (lshift g a (pos b) ≡ a *ℤ pos (2 ^ b))
        × (rshift g a (negsuc b) ≡ a *ℤ pos (2 ^ suc b))
        × IsFloor (rshift g a (pos b)) a (2 ^ b)
        × IsFloor (lshift g a (negsuc b)) a (2 ^ suc b)
  unfolding lshift rshift
  shift_lem a b = (
    lshift_loop_lem b (lt_wf.apply b) a,
    lshift_loop_lem (suc b) (lt_wf.apply (suc b)) a,
    rshift_loop_lem b (lt_wf.apply b) a,
    rshift_loop_lem (suc b) (lt_wf.apply (suc b)) a,
  )

  -- Shifting left and back right by a count gives the value again.
  pub rshift-lshift : (a : ℤ) (b : ℕ) → rshift g (lshift g a (pos b)) (pos b) ≡ a
  rshift-lshift a b = floor_exact _ a (2 ^ b) (one-le-pow b 2 (omega arith)) (
      subst (λ x. IsFloor (rshift g (lshift g a (pos b)) (pos b)) x (2 ^ b)) (shift_lem a b).0
        (shift_lem (lshift g a (pos b)) b).2)

  floor_zero : (q : ℤ) (m : ℕ) → 0 < m → IsFloor q (pos 0) m → q ≡ pos 0
  floor_zero q m h f = floor_exact q (pos 0) m h (subst (λ x. IsFloor q x m) (zero_scale m) f)

  -- Zero shifted is zero, whatever the count.
  pub shift_zero : (b : ℤ) → (lshift g (pos 0) b ≡ pos 0) × (rshift g (pos 0) b ≡ pos 0)
  shift_zero (pos b) = (
    (shift_lem (pos 0) b).0 ∙ sym (zero_scale _),
    floor_zero _ (2 ^ b) (one-le-pow b 2 (omega arith)) (shift_lem (pos 0) b).2,
  )
  shift_zero (negsuc b) = (
    floor_zero _ (2 ^ suc b) (one-le-pow (suc b) 2 (omega arith)) (shift_lem (pos 0) b).3,
    (shift_lem (pos 0) b).1 ∙ sym (zero_scale _),
  )
