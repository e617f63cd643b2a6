-- ===== src/Checker/Arith/Laws.antt =====
-- The guards of the wrappers keep every result within `value_t`.
use native.Mathlib.Nat.{div-le_self, div-mul-le_self, mul-le-mul_left}
use rumur.Prelude.{
  ℕ, zero, suc, ◌+◌, ◌*◌, ◌/◌, ◌^◌, ◌≤◌, ◌≡◌, refl, sym, ◌∙◌, ap₂, inl, inr, true, false, ◌&&◌, not,
  arith, ◌⊎◌,
}
use rumur.Prelude.Int.{ℤ, pos, negsuc, pos_part, neg_part, neg, ◌==ℤ◌}
use rumur.Prelude.Results.{ok}
use rumur.Checker.Value.{Target, fits_value}
use rumur.Checker.Arith.{divide, quotient, is_least}

-- The limits of an integer type, by the greatest value: signed in two's complement, or unsigned.
abbrev pub IsValueType : Target → ℕ → Type 0
IsValueType c most =
    (c.value_max ≡ pos most)
    × (((c.value_min ≡ negsuc most) × (2 ^ c.raw_bits ≡ 2 * (most + 1)))
        ⊎ ((c.value_min ≡ pos 0) × (2 ^ c.raw_bits ≡ most + 1)))

abbrev pub Fits : Target → ℤ → Type 0
Fits c n = fits_value c n ≡ true

-- what the limits say of a value's parts
abbrev Within : ℕ → ℕ → ℤ → Type 0
Within most least n = (pos_part n ≤ most) × (neg_part n ≤ least)

Within-signed :
    (c : Target) (most : ℕ) (n : ℤ)
    → c.value_max ≡ pos most
    → c.value_min ≡ negsuc most
    → (Fits c n → Within most (suc most) n) × (Within most (suc most) n → Fits c n)
unfolding fits_value
Within-signed c most (pos n) max min =
    rw (max, min) (λ f. (ground arith, omega arith), λ w. ground arith)
Within-signed c most (negsuc n) max min =
    rw (max, min) (λ f. (omega arith, ground arith), λ w. ground arith)

Within-unsigned :
    (c : Target) (most : ℕ) (n : ℤ)
    → c.value_max ≡ pos most
    → c.value_min ≡ pos 0
    → (Fits c n → Within most 0 n) × (Within most 0 n → Fits c n)
unfolding fits_value
Within-unsigned c most (pos n) max min =
    rw (max, min) (λ f. (ground arith, omega arith), λ w. ground arith)
Within-unsigned c most (negsuc n) max min =
    rw (max, min) (λ f. (omega arith, ground arith), λ w. ground arith)

half_le : (a b : ℕ) → 2 ≤ b → a / b ≤ a / 2
half_le a b le =
    let twice : a / b * 2 ≤ a / b * b = mul-le-mul_left (a / b) le in
    omega (arith, div-mul-le_self a b)

quotient_bound :
    (most a b : ℕ)
    → suc a ≤ suc most
    → ((negsuc a ==ℤ negsuc most) && (negsuc b ==ℤ negsuc 0)) ≡ false
    → suc a / suc b ≤ most
quotient_bound most a zero le guard = ground arith
quotient_bound most a (suc b) le guard = omega (arith, half_le (suc a) (suc (suc b)) (omega arith))

quotient-signed :
    (most : ℕ) (a b : ℤ)
    → Within most (suc most) a
    → ((a ==ℤ negsuc most) && (b ==ℤ negsuc 0)) ≡ false
    → Within most (suc most) (quotient a b)
unfolding quotient neg
quotient-signed most (pos a) (pos b) (p, n) guard =
    let d = div-le_self a b in (ground arith, ground arith)
quotient-signed most (pos a) (negsuc b) (p, n) guard =
    let d = div-le_self a (suc b) in (ground arith, ground arith)
quotient-signed most (negsuc a) (pos b) (p, n) guard =
    let d = div-le_self (suc a) b in (ground arith, ground arith)
quotient-signed most (negsuc a) (negsuc b) (p, n) guard =
    let d = div-le_self (suc a) (suc b) in
    (ground (arith, quotient_bound most a b n guard), ground arith)

quotient-unsigned :
    (most : ℕ) (a b : ℤ) → Within most 0 a → Within most 0 b → Within most 0 (quotient a b)
unfolding quotient neg
quotient-unsigned most (pos a) (pos b) (p, n) (p', n') =
    let d = div-le_self a b in (ground arith, ground arith)
quotient-unsigned most (pos a) (negsuc b) (p, n) (p', n') = absurd (omega arith)
quotient-unsigned most (negsuc a) b (p, n) (p', n') = absurd (omega arith)

-- Within the limits of an integer type, signed or unsigned: where divide's guards throw nothing, it
-- returns the quotient, and the quotient lies within the limits.
pub divide-Fits :
    (c : Target) (most : ℕ) (a b : ℤ)
    → IsValueType c most
    → Fits c a
    → Fits c b
    → (b ==ℤ pos 0) ≡ false
    → (is_least c a && (b ==ℤ negsuc 0)) ≡ false
    → (divide c a b ≡ ok (quotient a b)) × Fits c (quotient a b)
unfolding divide
divide-Fits c most a b (max, inl (min, bits)) fa fb nonzero guard =
    let within = (Within-signed c most a max min).0 fa in
    let signed : not (c.value_min ==ℤ pos 0) ≡ true = rw min (ground arith) in
    let same : ((true && (a ==ℤ negsuc most)) && (b ==ℤ negsuc 0))
        ≡ (is_least c a && (b ==ℤ negsuc 0)) =
      ap₂ (λ x m. (x && (a ==ℤ m)) && (b ==ℤ negsuc 0)) (sym signed) (sym min) in
    let apart : ((a ==ℤ negsuc most) && (b ==ℤ negsuc 0)) ≡ false = same ∙ guard in
    (
      rw (nonzero, guard) refl,
      (Within-signed c most (quotient a b) max min).1 (quotient-signed most a b within apart),
    )
divide-Fits c most a b (max, inr (min, bits)) fa fb nonzero guard = (
  rw (nonzero, guard) refl,
  (Within-unsigned c most (quotient a b) max min).1 (
      quotient-unsigned most a b ((Within-unsigned c most a max min).0 fa)
        ((Within-unsigned c most b max min).0 fb)),
)
