-- ===== src/Examples/Division.antt =====
-- Division of integers rounded towards zero, and that it undoes a product.
use native.Mathlib.Nat.{mul-div_cancel, mul-mod_left}
use rumur.Prelude.{ℕ, zero, suc, ◌-◌, ◌*◌, ◌/◌, ◌%◌, ◌≡◌, ◌≢◌, refl, arith}
use rumur.Prelude.Int.{ℤ, pos, negsuc, neg, ◌*ℤ◌}

abbrev pub quotient : ℤ → ℤ → ℤ
quotient (pos a) (pos b) = pos (a / b)
quotient (pos a) (negsuc b) = neg (pos (a / suc b))
quotient (negsuc a) (pos b) = neg (pos (suc a / b))
quotient (negsuc a) (negsuc b) = pos (suc a / suc b)

abbrev pub remainder : ℤ → ℤ → ℤ
remainder (pos a) (pos b) = pos (a % b)
remainder (pos a) (negsuc b) = pos (a % suc b)
remainder (negsuc a) (pos b) = neg (pos (suc a % b))
remainder (negsuc a) (negsuc b) = neg (pos (suc a % suc b))

pub quotient_zero : (b : ℤ) → b ≢ pos 0 → quotient (pos 0) b ≡ pos 0
unfolding neg
quotient_zero (pos b) h = ground arith
quotient_zero (negsuc b) h = ground arith

pub remainder_zero : (b : ℤ) → b ≢ pos 0 → remainder (pos 0) b ≡ pos 0
remainder_zero (pos b) h = ground arith
remainder_zero (negsuc b) h = ground arith

opposite : (k j : ℕ) → pos (suc k) *ℤ negsuc j ≡ negsuc (suc k * suc j - 1)
unfolding ◌*ℤ◌
opposite k j = grind arith

opposite' : (k j : ℕ) → negsuc k *ℤ pos (suc j) ≡ negsuc (suc k * suc j - 1)
unfolding ◌*ℤ◌
opposite' k j = grind arith

alike : (k j : ℕ) → negsuc k *ℤ negsuc j ≡ pos (suc k * suc j)
unfolding ◌*ℤ◌
alike k j = grind arith

alike' : (k j : ℕ) → pos k *ℤ pos (suc j) ≡ pos (k * suc j)
unfolding ◌*ℤ◌
alike' k j = grind arith

zero_times : (b : ℤ) → pos 0 *ℤ b ≡ pos 0
unfolding ◌*ℤ◌
zero_times b = ground arith

refill : (k j : ℕ) → suc (suc k * suc j - 1) ≡ suc k * suc j
refill k j = grind arith

neg_pos : (k : ℕ) → neg (pos (suc k)) ≡ negsuc k
unfolding neg
neg_pos k = ground arith

cancel : (k j : ℕ) → k * suc j / suc j ≡ k
cancel k j = mul-div_cancel k (omega arith)

exact : (k j : ℕ) → k * suc j % suc j ≡ 0
exact k j = mul-mod_left k (suc j)

neg_zero : neg (pos 0) ≡ pos 0
unfolding neg
neg_zero = refl

pub quotient_mul : (a b : ℤ) → b ≢ pos 0 → quotient (a *ℤ b) b ≡ a
quotient_mul (pos zero) b h = rw (zero_times b) (quotient_zero b h)
quotient_mul (pos (suc k)) (pos zero) h = absurd (h refl)
quotient_mul (pos (suc k)) (pos (suc j)) h = rw (alike' (suc k) j, cancel (suc k) j)
quotient_mul (pos (suc k)) (negsuc j) h = rw (opposite k j, refill k j, cancel (suc k) j)
quotient_mul (negsuc k) (pos zero) h = absurd (h refl)
quotient_mul (negsuc k) (pos (suc j)) h =
    rw (opposite' k j, refill k j, cancel (suc k) j) (neg_pos k)
quotient_mul (negsuc k) (negsuc j) h = rw (alike k j, cancel (suc k) j) (neg_pos k)

pub remainder_mul : (a b : ℤ) → b ≢ pos 0 → remainder (a *ℤ b) b ≡ pos 0
remainder_mul (pos zero) b h = rw (zero_times b) (remainder_zero b h)
remainder_mul (pos (suc k)) (pos zero) h = absurd (h refl)
remainder_mul (pos (suc k)) (pos (suc j)) h = rw (alike' (suc k) j, exact (suc k) j)
remainder_mul (pos (suc k)) (negsuc j) h = rw (opposite k j, refill k j, exact (suc k) j) neg_zero
remainder_mul (negsuc k) (pos zero) h = absurd (h refl)
remainder_mul (negsuc k) (pos (suc j)) h = rw (opposite' k j, refill k j, exact (suc k) j) neg_zero
remainder_mul (negsuc k) (negsuc j) h = rw (alike k j, exact (suc k) j)
