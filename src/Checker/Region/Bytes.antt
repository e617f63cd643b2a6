-- ===== src/Checker/Region/Bytes.antt =====
-- What an assignment to one byte does to the bits.
use Prim.Native.Nat.{bit_and}
use native.Mathlib.Nat.{one-le-pow, pow-le-pow_right}
use rumur.Prelude.{
  ℕ, ◌+◌, ◌-◌, ◌*◌, ◌/◌, ◌%◌, ◌^◌, ◌≤◌, ◌<◌, ◌≡◌, refl, sym, ◌∙◌, ap, ap₂, Bool-cases, inl, inr,
  true, false, if◌then◌else◌, ltb, leb, ◌==◌, ◌&&◌, not, arith,
}
use rumur.Prelude.Bits.{testbit, testbit-zero, testbit-bit_and, testbit-mask, testbit-complement}
use rumur.Checker.Memory.{Memory, IsBytes, bit}
use rumur.Checker.Region.{set_byte, clear_bytes}

pub bit-set_byte :
    (m : Memory) (p x k : ℕ)
    → bit (set_byte m p x) k ≡ (if k / 8 == p then testbit x (k % 8) else bit m k)
unfolding set_byte
bit-set_byte m p x k = elim (Bool-cases (k / 8 == p)) [
  | inl here ↦ rw here refl
  | inr there ↦ rw there refl
]

pub set_byte-IsBytes : (m : Memory) (p x : ℕ) → IsBytes m → x < 2 ^ 8 → IsBytes (set_byte m p x)
unfolding set_byte
set_byte-IsBytes m p x b lt a = ground (arith, b a)

pub bit-clear_bytes :
    (m : Memory) (p size k : ℕ)
    → bit (clear_bytes m p size) k ≡ (not (leb (8 * p) k && ltb k (8 * (p + size))) && bit m k)
unfolding clear_bytes
bit-clear_bytes m p size k = elim (Bool-cases (leb p (k / 8) && ltb (k / 8) (p + size))) [
  | inl here ↦
      let within : (leb (8 * p) k && ltb k (8 * (p + size))) ≡ true = ground arith in
      rw (here, within) (testbit-zero (k % 8))
  | inr there ↦
      let outside : (leb (8 * p) k && ltb k (8 * (p + size))) ≡ false = ground arith in
      rw (there, outside) refl
]

pub clear_bytes-IsBytes : (m : Memory) (p size : ℕ) → IsBytes m → IsBytes (clear_bytes m p size)
unfolding clear_bytes
clear_bytes-IsBytes m p size b a = ground (arith, b a)

-- the mask of a byte's bits from n on
pub testbit-above : (n i : ℕ) → n ≤ 8 → i < 8 → testbit (255 - (2 ^ n - 1)) i ≡ leb n i
testbit-above n i le lt =
    let in_byte : ltb i 8 ≡ true = ground arith in
    let small : 2 ^ n - 1 < 2 ^ 8 =
      omega (arith, pow-le-pow_right {n = 2} (omega arith) le, one-le-pow n 2 (omega arith)) in
    testbit-complement 8 (2 ^ n - 1) i small
    ∙ ap₂ (λ b c. b && not c) in_byte (testbit-mask n i)
    ∙ ground arith

-- The bits of a byte and of a mask.
pub bit-masked :
    (m : Memory) (p mask k : ℕ)
    → k / 8 ≡ p
    → testbit (bit_and (m p) mask) (k % 8) ≡ (bit m k && testbit mask (k % 8))
bit-masked m p mask k e =
    testbit-bit_and (m p) mask (k % 8)
    ∙ ap (λ a. testbit (m a) (k % 8) && testbit mask (k % 8)) (sym e)
