-- ===== src/Checker/Liveness/Known.antt =====
-- The bits that rumur/resources/header.c keeps for liveness properties, one by one.
use Prim.Native.Nat.{bit_and, bit_or}
use native.Mathlib.Nat.{pow-suc, one-le-pow}
use rumur.Prelude.{
  ◌⊎◌, ℕ, zero, suc, ◌-◌, ◌*◌, ◌/◌, ◌%◌, ◌^◌, ◌≤◌, ◌<◌, ◌≡◌, refl, sym, ap, ap₂, ◌∙◌, inl, inr,
  Bool, true, false, leb, ◌==◌, ◌&&◌, ◌||◌, Bool-cases, ==_iff, arith,
}
use rumur.Prelude.Bits.{
  testbit, testbit-zero, testbit-bit_and, testbit-bit_or, testbit-shr, testbit-shl, testbit_ext,
  bit_and-lt,
}
use rumur.Checker.Liveness.{Words, set_word, bit_of, words_for}

-- Whether a state is known to lead to one where a property holds.
abbrev pub known : Words → ℕ → ℕ → Bool
known words s index = testbit (words s (index / 64)) (index % 64)

testbit_one : (i : ℕ) → testbit 1 i ≡ (i == 0)
unfolding testbit
testbit_one zero = refl
testbit_one (suc i) = testbit-zero i ∙ ground arith

testbit-power : (b i : ℕ) → testbit (2 ^ b) i ≡ (i == b)
testbit-power b i =
    ap (λ n. testbit n i) (omega arith)
    ∙ testbit-shl b 1 i
    ∙ ap (λ t. leb b i && t) (testbit_one (i - b))
    ∙ ground arith

mask_bits : (word b i : ℕ) → testbit (bit_and word (2 ^ b)) i ≡ (testbit word i && (i == b))
mask_bits word b i =
    testbit-bit_and word (2 ^ b) i ∙ ap (λ t. testbit word i && t) (testbit-power b i)

power-lt : (b : ℕ) → 2 ^ b < 2 ^ suc b
power-lt b = rw (pow-suc 2 b) (omega (arith, one-le-pow b 2 (omega arith)))

and_false : (b : Bool) → (b && false) ≡ false
and_false true = refl
and_false false = refl

or_false : (b : Bool) → (b || false) ≡ b
or_false true = refl
or_false false = refl

-- The mask of one bit tests that bit.
pub test_mask : (word b : ℕ) → (bit_and word (2 ^ b) == 2 ^ b) ≡ testbit word b
test_mask word b = elim (Bool-cases (testbit word b)) [
  | inl one ↦ rw one (
      (==_iff _ _).1 (
        testbit_ext (suc b) (bit_and word (2 ^ b)) (2 ^ b)
          (bit_and-lt (suc b) word (2 ^ b) (power-lt b)) (power-lt b)
          (λ i. mask_bits word b i ∙ only i one ∙ sym (testbit-power b i))))
  | inr none ↦ elim (Bool-cases (bit_and word (2 ^ b) == 2 ^ b)) [
    | inl same ↦ cc (
      none,
      ap (λ n. testbit n b) ((==_iff _ _).0 same),
      mask_bits word b b,
      testbit-power b b,
      self,
    )
    | inr other ↦ other ∙ sym none
  ]
]
  where
    only : (i : ℕ) → testbit word b ≡ true → (testbit word i && (i == b)) ≡ (i == b)
    only i one = elim (Bool-cases (i == b)) [
      | inl same ↦ rw same (ap (λ t. t && true) (ap (testbit word) ((==_iff i b).0 same) ∙ one))
      | inr other ↦ rw other (and_false (testbit word i))
    ]

    self : (b == b) ≡ true
    self = ground arith

pub bit_of_lem : (word j : ℕ) → bit_of word j ≡ testbit word j
unfolding bit_of
bit_of_lem word j =
    test_mask (word / 2 ^ j) 0 ∙ testbit-shr j word 0 ∙ ap (testbit word) (omega arith)

-- Setting one bit of a state makes one property known of it.
pub known-set_word :
    (words : Words) (s index t j : ℕ)
    → known (set_word words s (index / 64) (bit_or (words s (index / 64)) (2 ^ (index % 64)))) t j
      ≡ (known words t j || ((t == s) && (j == index)))
known-set_word words s index t j = elim (Bool-cases ((t == s) && (j / 64 == index / 64))) [
  | inl here ↦ rw here (
      testbit-bit_or (words s (index / 64)) (2 ^ (index % 64)) (j % 64)
      ∙ ap₂ ◌||◌ (ap₂ (λ u i. testbit (words u i) (j % 64)) (ground arith) (ground arith))
          (testbit-power (index % 64) (j % 64) ∙ ground arith))
  | inr other ↦ rw other (apart ∙ ap (λ b. known words t j || b) (ground arith))
]
  where
    apart : known words t j ≡ (known words t j || false)
    apart = sym (or_false (known words t j))

pub words_for-le :
    (liveness_count index : ℕ) → index < liveness_count → index < words_for liveness_count * 64
unfolding words_for
words_for-le liveness_count index below = ground arith

pub le-words_for : (liveness_count : ℕ) → liveness_count ≤ words_for liveness_count * 64
unfolding words_for
le-words_for liveness_count = ground arith

-- The words after the assignment of `mark_liveness`.
abbrev pub marked : Words → ℕ → ℕ → Words
marked words s index =
    set_word words s (index / 64) (bit_or (words s (index / 64)) (2 ^ (index % 64)))

true_right : (a b : Bool) → b ≡ true → (a || b) ≡ true
true_right true b h = refl
true_right false b h = h

pub known-marked :
    (words : Words) (s index t j : ℕ)
    → known (marked words s index) t j ≡ true
    → (known words t j ≡ true) ⊎ ((t ≡ s) × (j ≡ index))
known-marked words s index t j h = elim (Bool-cases (known words t j)) [
  | inl old ↦ inl old
  | inr new ↦
      let both : ((t == s) && (j == index)) ≡ true =
        ap (λ b. b || ((t == s) && (j == index))) (sym new)
        ∙ sym (known-set_word words s index t j)
        ∙ h in
      inr (ground arith, ground arith)
]

pub marked-keeps :
    (words : Words) (s index t j : ℕ)
    → known words t j ≡ true
    → known (marked words s index) t j ≡ true
marked-keeps words s index t j h =
    known-set_word words s index t j ∙ ap (λ b. b || ((t == s) && (j == index))) h

pub marked_self : (words : Words) (s index : ℕ) → known (marked words s index) s index ≡ true
marked_self words s index =
    known-set_word words s index s index ∙ true_right (known words s index) _ (ground arith)
