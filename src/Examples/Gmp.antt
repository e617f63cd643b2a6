-- ===== src/Examples/Gmp.antt =====
-- An instance of the parameter that stands for GMP, with its laws.
use Prim.Native.Nat.{bit_and, bit_or, bit_xor}
use native.Mathlib.Nat.{one-le-pow, mul_comm, div-add-mod, mod-lt}
use rumur.Prelude.{ℕ, zero, suc, ◌+◌, ◌-◌, ◌*◌, ◌/◌, ◌%◌, ◌^◌, ◌<◌, ◌≡◌, refl, arith}
use rumur.Prelude.Int.{ℤ, pos, negsuc, ◌*ℤ◌, ◌+ℤ◌, ◌≤ℤ◌, ◌<ℤ◌, pos_part, neg_part}
use rumur.Gmp.{Gmp, IsGmp}
use rumur.Examples.Division.{
  quotient, remainder, quotient_zero, remainder_zero, quotient_mul, remainder_mul,
}
use rumur.Fold.Shift.Laws.{scale}

abbrev complement : ℤ → ℤ
complement (pos n) = negsuc n
complement (negsuc n) = pos n

abbrev conjunction : ℤ → ℤ → ℤ
conjunction (pos zero) b = pos 0
conjunction a (pos zero) = pos 0
conjunction (pos a) (pos b) = pos (bit_and a b)
conjunction (pos a) (negsuc b) = pos (a - bit_and a b)
conjunction (negsuc a) (pos b) = pos (b - bit_and a b)
conjunction (negsuc a) (negsuc b) = negsuc (bit_or a b)

abbrev exclusive : ℤ → ℤ → ℤ
exclusive (pos a) (pos b) = pos (bit_xor a b)
exclusive (pos a) (negsuc b) = negsuc (bit_xor a b)
exclusive (negsuc a) (pos b) = negsuc (bit_xor a b)
exclusive (negsuc a) (negsuc b) = pos (bit_xor a b)

abbrev floor_half : ℤ → ℕ → ℤ
floor_half (pos a) k = pos (a / 2 ^ k)
floor_half (negsuc a) k = negsuc (a / 2 ^ k)

-- the ones among the lowest bits of a number
unfoldable pub ones : ℕ → ℕ → ℕ
ones zero a = 0
ones (suc bits) a = a % 2 + ones bits (a / 2)

-- A negative number has infinitely many ones, and mpz_popcount gives the greatest count.
abbrev pub popcount : ℤ → ℕ
unfolding ones
popcount (pos a) = ones a a
popcount (negsuc a) = 3

abbrev pub gmp : Gmp
gmp = record {
  tdiv_q = quotient;
  tdiv_r = remainder;
  and = conjunction;
  ior = λ a b. complement (conjunction (complement a) (complement b));
  xor = exclusive;
  complement = complement;
  mul_2exp = λ a k. a *ℤ pos (2 ^ k);
  fdiv_q_2exp = floor_half;
  popcount = popcount;
  ulong_max = 3;
  ulong_max_pos = omega arith;
}

conjunction_zero : (a : ℤ) → conjunction a (pos 0) ≡ pos 0
conjunction_zero (pos zero) = refl
conjunction_zero (pos (suc a)) = refl
conjunction_zero (negsuc a) = refl

-- A quotient of natural numbers, multiplied out.
floor_bounds : (a m : ℕ) → 0 < m → (a / m * m < suc a) × (a < (a / m + 1) * m)
floor_bounds a m h = grind (arith, div-add-mod a m, mod-lt a h, mul_comm)

floor_half_low : (a : ℤ) (k : ℕ) → floor_half a k *ℤ pos (2 ^ k) ≤ℤ a
floor_half_low (pos a) k =
    simp scale (omega (arith, floor_bounds a (2 ^ k) (one-le-pow k 2 (omega arith))))
floor_half_low (negsuc a) k =
    simp scale (omega (arith, floor_bounds a (2 ^ k) (one-le-pow k 2 (omega arith))))

pos_next : (q : ℕ) → (pos_part (pos q +ℤ pos 1) ≡ q + 1) × (neg_part (pos q +ℤ pos 1) ≡ 0)
unfolding ◌+ℤ◌
pos_next q = (ground arith, ground arith)

negsuc_next : (q : ℕ) → (pos_part (negsuc q +ℤ pos 1) ≡ 0) × (neg_part (negsuc q +ℤ pos 1) ≡ q)
unfolding ◌+ℤ◌
negsuc_next q = (ground arith, ground arith)

floor_half_high : (a : ℤ) (k : ℕ) → a <ℤ (floor_half a k +ℤ pos 1) *ℤ pos (2 ^ k)
floor_half_high (pos a) k =
    simp (scale, (pos_next (a / 2 ^ k)).0, (pos_next (a / 2 ^ k)).1)
      (omega (arith, floor_bounds a (2 ^ k) (one-le-pow k 2 (omega arith))))
floor_half_high (negsuc a) k =
    simp (scale, (negsuc_next (a / 2 ^ k)).0, (negsuc_next (a / 2 ^ k)).1)
      (omega (arith, floor_bounds a (2 ^ k) (one-le-pow k 2 (omega arith))))

pub gmp-IsGmp : IsGmp gmp
gmp-IsGmp = record {
  tdiv_q_zero = quotient_zero;
  tdiv_r_zero = remainder_zero;
  tdiv_q_mul = quotient_mul;
  tdiv_r_mul = remainder_mul;
  and_zero_left = λ b. refl;
  and_zero_right = conjunction_zero;
  mul_2exp_lem = λ a k. refl;
  fdiv_q_2exp_low = floor_half_low;
  fdiv_q_2exp_high = floor_half_high;
}
