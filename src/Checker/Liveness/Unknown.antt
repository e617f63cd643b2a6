-- ===== src/Checker/Liveness/Unknown.antt =====
-- `unknown_liveness` of rumur/resources/header.c.
use rumur.Prelude.{
  ℕ, zero, suc, ◌+◌, ◌*◌, ◌≤◌, ◌<◌, ◌≡◌, ◌≢◌, refl, sym, ap, ap₂, ◌∙◌, inl, inr, true, false, not,
  if◌then◌else◌, ltb, leb, Bool-cases, leb→le, le→leb, ℕ_discrete, arith,
}
use rumur.Prelude.Bits.{testbit}
use rumur.Checker.Liveness.{Words, words_for, unknown_bits, unknown_words, unknown_liveness}
use rumur.Checker.Liveness.Known.{known, bit_of_lem, le-words_for}

-- How many of the first properties are unknown of a state.
pub unknowns : Words → ℕ → ℕ → ℕ
unknowns words s zero = 0
unknowns words s (suc n) = unknowns words s n + (if known words s n then 0 else 1)

pub known_at :
    (words : Words) (s i j : ℕ) → j < 64 → known words s (i * 64 + j) ≡ testbit (words s i) j
known_at words s i j small = ap₂ (λ w b. testbit (words s w) b) (omega arith) (omega arith)

up_to : ℕ → ℕ → ℕ
up_to count n = if leb count n then count else n

module _ (liveness_count : ℕ) where
  -- The properties below a number that are properties of the model.
  below : Words → ℕ → ℕ → ℕ
  below words s n = unknowns words s (up_to liveness_count n)

  below-over :
      (words : Words) (s m n : ℕ)
      → leb liveness_count m ≡ true
      → m ≤ n
      → below words s m ≡ below words s n
  unfolding below up_to
  below-over words s m n over le =
      rw (over, le→leb (liveness_count) n (omega (arith, leb→le _ _ over))) refl

  below-suc :
      (words : Words) (s n : ℕ)
      → leb liveness_count n ≡ false
      → below words s (n + 1) ≡ below words s n + (if known words s n then 0 else 1)
  unfolding below up_to unknowns
  below-suc words s n inside = elim (Bool-cases (leb liveness_count (n + 1))) [
    | inl at ↦
        let last : liveness_count ≡ suc n = ground arith in
        rw (inside, at) (ap (unknowns words s) last)
    | inr more ↦ rw (inside, more) (ap (unknowns words s) (add_one n))
  ]
    where
      add_one : (k : ℕ) → k + 1 ≡ suc k
      add_one k = omega arith

  unknown_bits-unknowns :
      (words : Words) (s i j rounds unknown : ℕ)
      → j + rounds ≤ 64
      → unknown_bits liveness_count i (words s i) j rounds unknown + below words s (i * 64 + j)
        ≡ unknown + below words s (i * 64 + j + rounds)
  unfolding unknown_bits
  unknown_bits-unknowns words s i j zero unknown few =
      ap (λ n. unknown + below words s n) (omega arith)
  unknown_bits-unknowns words s i j (suc rounds) unknown few =
      elim (Bool-cases (leb liveness_count (i * 64 + j))) [
        | inl over ↦ rw over (
            ap (λ n. unknown + n)
              (below-over words s (i * 64 + j) (i * 64 + j + suc rounds) over (omega arith)))
        | inr inside ↦
            rw (inside, bit_of_lem (words s i) j, sym (known_at words s i j (omega arith)))
              (counted inside _ (unknown_bits-unknowns words s i (j + 1) rounds _ (omega arith)))
      ]
    where
      next :
          leb liveness_count (i * 64 + j) ≡ false
          → below words s (i * 64 + (j + 1))
            ≡ below words s (i * 64 + j) + (if known words s (i * 64 + j) then 0 else 1)
      next inside = ap (below words s) (omega arith) ∙ below-suc words s (i * 64 + j) inside

      same_end : below words s (i * 64 + (j + 1) + rounds) ≡ below words s (i * 64 + j + suc rounds)
      same_end = ap (below words s) (omega arith)

      counted :
          leb liveness_count (i * 64 + j) ≡ false
          → (u : ℕ)
          → u + below words s (i * 64 + (j + 1))
            ≡ (if not (known words s (i * 64 + j)) then unknown + 1 else unknown)
              + below words s (i * 64 + (j + 1) + rounds)
          → u + below words s (i * 64 + j) ≡ unknown + below words s (i * 64 + j + suc rounds)
      counted inside u e = elim (Bool-cases (known words s (i * 64 + j))) [
        | inl is_known ↦ omega (arith, same_end, (rw is_known at (next inside)), (rw is_known at e))
        | inr is_unknown ↦
            omega (arith, same_end, (rw is_unknown at (next inside)), (rw is_unknown at e))
      ]

  unknown_words-unknowns :
      (words : Words) (s i rounds unknown : ℕ)
      → unknown_words liveness_count words s i rounds unknown + below words s (i * 64)
        ≡ unknown + below words s ((i + rounds) * 64)
  unfolding unknown_words
  unknown_words-unknowns words s i zero unknown =
      ap (λ n. unknown + below words s (n * 64)) (omega arith)
  unknown_words-unknowns words s i (suc rounds) unknown = omega (
    arith,
    unknown_bits-unknowns words s i 0 64 unknown (omega arith),
    unknown_words-unknowns words s (i + 1) rounds
        (unknown_bits liveness_count i (words s i) 0 64 unknown),
    ap (below words s) {x = i * 64 + 0 + 64} {y = (i + 1) * 64} (omega arith),
    ap (below words s) {x = i * 64 + 0} {y = i * 64} (omega arith),
    ap (λ n. below words s (n * 64)) {x = i + 1 + rounds} {y = i + suc rounds} (omega arith),
  )

  -- unknown_liveness counts the properties of the model that are unknown of the state.
  pub unknown_liveness_lem :
      (words : Words) (s : ℕ)
      → unknown_liveness liveness_count words s ≡ unknowns words s liveness_count
  unfolding unknown_liveness below up_to unknowns
  unknown_liveness_lem words s =
      omega (arith, unknown_words-unknowns words s 0 (words_for liveness_count) 0, start, finish)
    where
      start : below words s (0 * 64) ≡ 0
      start = elim (Bool-cases (leb liveness_count 0)) [
        | inl over ↦
            let no_more : liveness_count ≡ 0 = omega (arith, leb→le _ _ over) in
            rw over (ap (unknowns words s) no_more)
        | inr inside ↦ rw inside refl
      ]

      finish : below words s ((0 + words_for liveness_count) * 64) ≡ unknowns words s liveness_count
      finish =
          rw
            (le→leb liveness_count ((0 + words_for liveness_count) * 64)
              (omega (arith, le-words_for liveness_count)))
            refl

-- A property more that is known.
pub unknowns-Marks :
    (words words' : Words) (s index : ℕ)
    → known words s index ≡ false
    → known words' s index ≡ true
    → ((j : ℕ) → j ≢ index → known words' s j ≡ known words s j)
    → (n : ℕ) → unknowns words' s n + (if ltb index n then 1 else 0) ≡ unknowns words s n
unfolding unknowns
unknowns-Marks words words' s index old new others zero = ground arith
unknowns-Marks words words' s index old new others (suc n) = elim (ℕ_discrete n index) [
  | yes e ↦
      let was : known words s n ≡ false = ap (known words s) e ∙ old in
      let is : known words' s n ≡ true = ap (known words' s) e ∙ new in
      rw (was, is) (ground (arith, unknowns-Marks words words' s index old new others n))
  | no other ↦
      rw (others n other) (ground (arith, unknowns-Marks words words' s index old new others n))
]
