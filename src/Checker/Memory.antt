-- ===== src/Checker/Memory.antt =====
-- The bytes of a state, and `copy_out64`, `copy_in64` and their 128-bit kin. On a big-endian machine the
-- swap of the bytes makes up for their order, so a word's lowest byte has the lowest address on both.
use rumur.Prelude.{
  ℕ, zero, suc, ◌+◌, ◌-◌, ◌*◌, ◌/◌, ◌%◌, ◌^◌, ◌≤◌, ◌<◌, ◌≡◌, refl, ◌∙◌, ap, ap₂, Bool, Bool-cases,
  inl, inr, true, false, if◌then◌else◌, ltb, leb, ◌&&◌, arith,
}
use rumur.Prelude.Bits.{testbit, pow-add, testbit-zero, testbit-shr, testbit-wrap, testbit-fields}

-- Every address holds a byte.
abbrev pub Memory : Type 0
Memory = ℕ → ℕ

abbrev pub IsBytes : Memory → Type 0
IsBytes m = (a : ℕ) → m a < 2 ^ 8

unfoldable pub copy_out : Memory → ℕ → ℕ → ℕ
copy_out m p zero = 0
copy_out m p (suc extent) = m p + copy_out m (p + 1) extent * 2 ^ 8

unfoldable pub copy_in : Memory → ℕ → ℕ → ℕ → Memory
copy_in m p v extent a =
    if leb p a && ltb a (p + extent) then v / 2 ^ (8 * (a - p)) % 2 ^ 8 else m a

-- the bit at an index that counts from the lowest bit of the byte at address 0
abbrev pub bit : Memory → ℕ → Bool
bit m k = testbit (m (k / 8)) (k % 8)

pub copy_in-IsBytes : (m : Memory) (p v extent : ℕ) → IsBytes m → IsBytes (copy_in m p v extent)
unfolding copy_in
copy_in-IsBytes m p v extent h a = ground (arith, h a)

bit_step : (m : Memory) (p i : ℕ) → 8 ≤ i → bit m (8 * (p + 1) + (i - 8)) ≡ bit m (8 * p + i)
bit_step m p i h = ap (bit m) (omega arith)

bit_first : (m : Memory) (p i : ℕ) → i < 8 → testbit (m p) i ≡ bit m (8 * p + i)
bit_first m p i h =
    let a : p ≡ (8 * p + i) / 8 = omega arith in
    let j : i ≡ (8 * p + i) % 8 = omega arith in ap₂ (λ b n. testbit (m b) n) a j

pub testbit-copy_out :
    (m : Memory) (p extent i : ℕ)
    → IsBytes m
    → testbit (copy_out m p extent) i ≡ (ltb i (8 * extent) && bit m (8 * p + i))
unfolding copy_out
testbit-copy_out m p zero i h = testbit-zero i ∙ ground arith
testbit-copy_out m p (suc extent) i h = ground (
  arith,
  testbit-fields 8 (m p) (copy_out m (p + 1) extent) i (h p),
  testbit-copy_out m (p + 1) extent (i - 8) h,
  bit_step m p i,
  bit_first m p i,
)

pow_byte : (n : ℕ) → 2 ^ (8 * suc n) ≡ 2 ^ (8 * n) * 256
pow_byte n = let e : 8 * suc n ≡ 8 + 8 * n = omega arith in rw (e, pow-add 8 (8 * n)) (omega arith)

pub copy_out-lt : (m : Memory) (p extent : ℕ) → IsBytes m → copy_out m p extent < 2 ^ (8 * extent)
unfolding copy_out
copy_out-lt m p zero h = omega arith
copy_out-lt m p (suc extent) h = omega (arith, h p, copy_out-lt m (p + 1) extent h, pow_byte extent)

low_bit : (k : ℕ) → ltb (k % 8) 8 ≡ true
low_bit k = ground arith

-- The bits after a copy: those of the word, and outside it those before.
pub bit-copy_in :
    (m : Memory) (p v extent k : ℕ)
    → bit (copy_in m p v extent) k
      ≡ (if leb (8 * p) k && ltb k (8 * (p + extent)) then testbit v (k - 8 * p) else bit m k)
unfolding copy_in
bit-copy_in m p v extent k = elim (Bool-cases (leb p (k / 8) && ltb (k / 8) (p + extent))) [
  | inl inside ↦
      let index : k % 8 + 8 * (k / 8 - p) ≡ k - 8 * p = ground arith in
      let there : (leb (8 * p) k && ltb k (8 * (p + extent))) ≡ true = ground arith in
      rw (inside, there)
        (testbit-wrap 8 (v / 2 ^ (8 * (k / 8 - p))) (k % 8)
          ∙ ap (λ b. b && testbit (v / 2 ^ (8 * (k / 8 - p))) (k % 8)) (low_bit k)
          ∙ testbit-shr (8 * (k / 8 - p)) v (k % 8)
          ∙ ap (testbit v) index)
  | inr outside ↦
      let there : (leb (8 * p) k && ltb k (8 * (p + extent))) ≡ false = ground arith in
      rw (outside, there) refl
]
