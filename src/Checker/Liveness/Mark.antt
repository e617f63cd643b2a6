-- ===== src/Checker/Liveness/Mark.antt =====
-- `mark_liveness` of rumur/resources/header.c marks a state and all states that it was reached from.
use rumur.Prelude.{
  ℕ, zero, suc, ◌*◌, ◌/◌, ◌%◌, ◌<◌, ◌≡◌, ◌≢◌, refl, sym, subst, ap, ◌∙◌, inl, inr, true, false, ltb,
  ◌==◌, Bool-cases, lt→ltb, ◌⊎◌, ℕ_discrete, arith,
}
use rumur.Prelude.Runs.{done}
use rumur.Checker.Liveness.{Words, words_for, mark_liveness}
use rumur.Checker.Liveness.Known.{
  marked, known-marked, marked-keeps, marked_self, known, test_mask, words_for-le,
}

pub not_null : (s : ℕ) → s ≢ 0 → (s == 0) ≡ false
not_null s present = ground arith

module _ (previous : ℕ → ℕ) where
  -- The states on the way to a state, itself included.
  pub data Leads (s : ℕ) : ℕ → Type 0 where
    self : Leads s s
    back : {t : ℕ} → Leads s t → previous t ≢ 0 → Leads s (previous t)

  -- What is known of a state is known of the one that it was reached from.
  abbrev pub IsClosed : Words → Type 0
  IsClosed words =
      (t j : ℕ) → known words t j ≡ true → previous t ≢ 0 → known words (previous t) j ≡ true

  -- Every state has a place on its way from a start state.
  abbrev pub Ranked : (ℕ → ℕ) → Type 0
  Ranked rank = (t : ℕ) → previous t ≢ 0 → rank (previous t) < rank t

  -- Closed but for what one state lacks.
  abbrev ClosedBut : ℕ → ℕ → Words → Type 0
  ClosedBut s index words =
      (t j : ℕ)
      → known words t j ≡ true
      → previous t ≢ 0
      → (known words (previous t) j ≡ true) ⊎ ((previous t ≡ s) × (j ≡ index))

  marked-ClosedBut :
      (words : Words) (s index : ℕ)
      → ClosedBut s index words
      → ClosedBut (previous s) index (marked words s index)
  marked-ClosedBut words s index closed t j h p = elim (known-marked words s index t j h) [
    | inl old ↦ elim (closed t j old p) [
      | inl above ↦ inl (marked-keeps words s index (previous t) j above)
      | inr (at, same) ↦ inl (
          subst (λ u. known (marked words s index) u j ≡ true) (sym at)
            (subst (λ i. known (marked words s index) s i ≡ true) (sym same)
              (marked_self words s index)))
    ]
    | inr (at, same) ↦ inr (ap previous at, same)
  ]

  Leads-back : {s t : ℕ} → previous s ≢ 0 → Leads (previous s) t → Leads s t
  Leads-back p self = back self p
  Leads-back p (back way q) = back (Leads-back p way) q

  known-Leads :
      (words : Words) {s : ℕ} (index : ℕ) {t : ℕ}
      → IsClosed words
      → known words s index ≡ true
      → Leads s t
      → known words t index ≡ true
  known-Leads words index closed h self = h
  known-Leads words index closed h (back {t} way p) =
      closed t index (known-Leads words index closed h way) p

  -- The words after a call: closed, with one property more of the states on the way.
  pub record Marks (words : Words) (s index : ℕ) (words' : Words) : Type 0 where
    pub closed : IsClosed words'
    pub keeps : (t j : ℕ) → known words t j ≡ true → known words' t j ≡ true
    pub marks : (t : ℕ) → Leads s t → known words' t index ≡ true
    pub only :
        (t j : ℕ) → known words' t j ≡ true → (known words t j ≡ true) ⊎ ((j ≡ index) × Leads s t)

  last-Marks :
      (words : Words) (s index : ℕ)
      → IsClosed (marked words s index)
      → Marks words s index (marked words s index)
  last-Marks words s index closed = record {
    closed = closed;
    keeps = marked-keeps words s index;
    marks =
        λ t way. known-Leads (marked words s index) index closed (marked_self words s index) way;
    only = λ t j h. elim (known-marked words s index t j h) [
      | inl old ↦ inl old
      | inr (at, same) ↦ inr (same, subst (Leads s) (sym at) self)
    ];
  }

  step-Marks :
      (words : Words) (s index : ℕ) (words' : Words)
      → previous s ≢ 0
      → Marks (marked words s index) (previous s) index words'
      → Marks words s index words'
  step-Marks words s index words' p rest = record {
    closed = rest.closed;
    keeps = λ t j h. rest.keeps t j (marked-keeps words s index t j h);
    marks = λ t way.
        known-Leads words' index rest.closed (rest.keeps s index (marked_self words s index)) way;
    only = λ t j h. elim (rest.only t j h) [
      | inl before ↦ elim (known-marked words s index t j before) [
        | inl old ↦ inl old
        | inr (at, same) ↦ inr (same, subst (Leads s) (sym at) self)
      ]
      | inr (same, way) ↦ inr (same, Leads-back p way)
    ];
  }

  -- With no state before it, or with the bit set already, nothing is left to do.
  end-IsClosed :
      (words : Words) (s index : ℕ)
      → ClosedBut s index words
      → previous s ≡ 0
      → IsClosed (marked words s index)
  end-IsClosed words s index closed first t j h p =
      elim (marked-ClosedBut words s index closed t j h p) [
        | inl above ↦ above
        | inr (at, same) ↦ absurd (p (at ∙ first))
      ]

  known-IsClosed :
      (words : Words) (s index : ℕ)
      → ClosedBut s index words
      → known words s index ≡ true
      → previous s ≢ 0
      → IsClosed (marked words s index)
  known-IsClosed words s index closed already q t j h p =
      elim (marked-ClosedBut words s index closed t j h p) [
        | inl above ↦ above
        | inr (at, same) ↦
            subst (λ u. known (marked words s index) u j ≡ true) (sym at)
              (subst (λ i. known (marked words s index) (previous s) i ≡ true) (sym same)
                (elim (closed s index already q) [
                  | inl above ↦ marked-keeps words s index (previous s) index above
                  | inr (own, _) ↦
                      subst (λ u. known (marked words s index) u index ≡ true) (sym own)
                        (marked_self words s index)
                ]))
      ]

  module _ (liveness_count index : ℕ) (below : index < liveness_count) (rank : ℕ → ℕ)
      (ranked : Ranked rank) where
    in_words : ltb index (words_for liveness_count * 64) ≡ true
    in_words = lt→ltb index _ (words_for-le liveness_count index below)

    mark_liveness-ends :
        (calls : ℕ) (words : Words) (s : ℕ)
        → s ≢ 0
        → rank s < calls
        → ClosedBut s index words
        → (words' : Words) × (mark_liveness previous liveness_count calls words s index
            ≡ done words')
          × Marks words s index words'
    unfolding mark_liveness
    mark_liveness-ends zero words s present few closed = absurd (omega arith)
    mark_liveness-ends (suc calls) words s present few closed =
        rw (not_null s present, in_words, test_mask (words s (index / 64)) (index % 64))
          (elim (Bool-cases (known words s index)) [
            | inl already ↦ (
              marked words s index,
              (rw already refl),
              last-Marks words s index (elim (ℕ_discrete (previous s) 0) [
                | yes first ↦ end-IsClosed words s index closed first
                | no more ↦ known-IsClosed words s index closed already more
              ]),
            )
            | inr new ↦ elim (ℕ_discrete (previous s) 0) [
              | yes first ↦ (
                marked words s index,
                (rw (new, first) refl),
                last-Marks words s index (end-IsClosed words s index closed first),
              )
              | no more ↦
                  let (words', returned, rest) =
                    mark_liveness-ends calls (marked words s index) (previous s) more
                      (omega (arith, ranked s more)) (marked-ClosedBut words s index closed) in
                  (
                    words',
                    (rw (new, not_null (previous s) more) returned),
                    step-Marks words s index words' more rest,
                  )
            ]
          ])

    -- Where what is known of a state is known of the one that it was reached from, and no state is
    -- reached from itself: mark_liveness of a state and a property returns, within one call more than
    -- the state's rank. The property is known of the state and of all states on its way then, and
    -- nothing else is known that was not, and the first condition holds again.
    pub mark_liveness-Marks :
        (calls : ℕ) (words : Words) (s : ℕ)
        → s ≢ 0
        → rank s < calls
        → IsClosed words
        → (words' : Words) × (mark_liveness previous liveness_count calls words s index
            ≡ done words')
          × Marks words s index words'
    mark_liveness-Marks calls words s present few closed =
        mark_liveness-ends calls words s present few (λ t j h p. inl (closed t j h p))
