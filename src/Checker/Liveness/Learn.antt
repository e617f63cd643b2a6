-- ===== src/Checker/Liveness/Learn.antt =====
-- `learn_liveness` of rumur/resources/header.c.
use rumur.Prelude.{
  ℕ, zero, suc, ◌+◌, ◌-◌, ◌*◌, ◌≤◌, ◌<◌, ◌≡◌, ◌≢◌, refl, sym, subst, ap, ◌∙◌, inl, inr, Bool, true,
  false, not, leb, ◌&&◌, Bool-cases, leb→le, ◌⊎◌, ℕ_discrete, dec_lt, arith,
}
use rumur.Prelude.Runs.{done}
use rumur.Prelude.Bits.{testbit}
use rumur.Checker.Liveness.{
  Words, bit_of, words_for, unknown_liveness, learn_bits, learn_words, learn_liveness,
}
use rumur.Checker.Liveness.Known.{known, bit_of_lem, le-words_for}
use rumur.Checker.Liveness.Mark.{
  Leads, self, IsClosed, Ranked, Marks, mark_liveness-Marks, not_null,
}
use rumur.Checker.Liveness.Unknown.{unknowns, known_at, unknowns-Marks, unknown_liveness_lem}

left_false : (a b : Bool) → (not a && b) ≡ true → a ≡ false
left_false true b h = cc
left_false false b h = refl

right_true : (a b : Bool) → (not a && b) ≡ true → b ≡ true
right_true true b h = cc
right_true false b h = h

left_true : (a b : Bool) → (not a && b) ≡ false → b ≡ true → a ≡ true
left_true true b h k = refl
left_true false b h k = cc

module _ (previous : ℕ → ℕ) (liveness_count : ℕ) (rank : ℕ → ℕ) (ranked : Ranked previous rank)
    (calls s : ℕ) (present : s ≢ 0) (few : rank s < calls) (successor : ℕ) where
  -- A property of the model that is known of the successor, of a state on the way to the state.
  abbrev pub Inherits : Words → ℕ → ℕ → Type 0
  Inherits words t j = Leads previous s t × (j < liveness_count) × (known words successor j ≡ true)

  -- What some rounds of the loops leave: the words closed, with properties more, all of them known of the
  -- successor and now of states on the way to the state, and counted.
  pub record Learns (words words' : Words) (new_info new_info' : ℕ) : Type 0 where
    pub closed : IsClosed previous words'
    pub keeps : (t j : ℕ) → known words t j ≡ true → known words' t j ≡ true
    pub only : (t j : ℕ) → known words' t j ≡ true → (known words t j ≡ true) ⊎ Inherits words t j
    pub counted :
        new_info' + unknowns words' s liveness_count ≡ new_info + unknowns words s liveness_count

  Learns-refl :
      (words : Words) (new_info : ℕ)
      → IsClosed previous words
      → Learns words words new_info new_info
  Learns-refl words new_info closed = record {
    closed = closed;
    keeps = λ t j h. h;
    only = λ t j h. inl h;
    counted = refl;
  }

  Learns-trans :
      {words words' words'' : Words} {n n' n'' : ℕ}
      → Learns words words' n n'
      → Learns words' words'' n' n''
      → Learns words words'' n n''
  Learns-trans first next = record {
    closed = next.closed;
    keeps = λ t j h. next.keeps t j (first.keeps t j h);
    only = λ t j h. elim (next.only t j h) [
      | inl before ↦ first.only t j before
      | inr (way, inside, has) ↦ elim (first.only successor j has) [
        | inl before ↦ inr (way, inside, before)
        | inr (_, _, before) ↦ inr (way, inside, before)
      ]
    ];
    counted = next.counted ∙ first.counted;
  }

  others-Marks :
      (words words' : Words) (index : ℕ)
      → Marks previous words s index words'
      → (j : ℕ) → j ≢ index
      → known words' s j ≡ known words s j
  others-Marks words words' index marks j other = elim (Bool-cases (known words' s j)) [
    | inl now ↦ elim (marks.only s j now) [
      | inl before ↦ now ∙ sym before
      | inr (same, way) ↦ absurd (other same)
    ]
    | inr never ↦ elim (Bool-cases (known words s j)) [
      | inl before ↦ cc (never, marks.keeps s j before)
      | inr before ↦ never ∙ sym before
    ]
  ]

  Marks-Learns :
      (words words' : Words) (index new_info : ℕ)
      → index < liveness_count
      → known words s index ≡ false
      → known words successor index ≡ true
      → Marks previous words s index words'
      → Learns words words' new_info (new_info + 1)
  Marks-Learns words words' index new_info inside old has marks = record {
    closed = marks.closed;
    keeps = marks.keeps;
    only = λ t j h. elim (marks.only t j h) [
      | inl before ↦ inl before
      | inr (same, way) ↦ inr (
        way,
        subst (λ k. k < liveness_count) (sym same) inside,
        subst (λ k. known words successor k ≡ true) (sym same) has,
      )
    ];
    counted = ground (
      arith,
      unknowns-Marks words words' s index old (marks.marks s self)
          (others-Marks words words' index marks) liveness_count,
    );
  }

  module _ (i word_src word_dst : ℕ) where
    -- Each bit that the successor's word has and that is a property's is known afterwards.
    learn_bits-Learns :
        (j rounds : ℕ) (words : Words) (new_info : ℕ)
        → j + rounds ≤ 64
        → IsClosed previous words
        → ((k : ℕ) → j ≤ k → k < 64 → testbit word_dst k ≡ known words s (i * 64 + k))
        → ((k : ℕ) → k < 64 → testbit word_src k ≡ true → known words successor (i * 64 + k) ≡ true)
        → (words' : Words) × (new_info' : ℕ) × (learn_bits previous liveness_count calls s i
              word_src word_dst j rounds words new_info
            ≡ done (words', new_info'))
          × Learns words words' new_info new_info'
          × ((k : ℕ)
              → j ≤ k
              → k < j + rounds
              → i * 64 + k < liveness_count
              → testbit word_src k ≡ true
              → known words' s (i * 64 + k) ≡ true)
    unfolding learn_bits
    learn_bits-Learns j zero words new_info fits closed same source =
        (words, new_info, refl, Learns-refl words new_info closed, λ k le lt. absurd (omega arith))
    learn_bits-Learns j (suc rounds) words new_info fits closed same source =
        elim (Bool-cases (leb liveness_count (i * 64 + j))) [
          | inl over ↦ (
            words,
            new_info,
            (rw over refl),
            Learns-refl words new_info closed,
            λ k le lt inside has. absurd (omega (arith, leb→le _ _ over)),
          )
          | inr under ↦
              let inside : i * 64 + j < liveness_count = ground arith in
              rw under (elim (Bool-cases (not (bit_of word_dst j) && bit_of word_src j)) [
                | inl new ↦
                    let old =
                      sym (same j (omega arith) (omega arith))
                      ∙ sym (bit_of_lem word_dst j)
                      ∙ left_false (bit_of word_dst j) (bit_of word_src j) new in
                    let has_new = source j (omega arith) (
                      sym (bit_of_lem word_src j)
                      ∙ right_true (bit_of word_dst j) (bit_of word_src j) new) in
                    let (words', returned, marks) =
                      mark_liveness-Marks previous liveness_count (i * 64 + j) inside rank ranked
                        calls words s present few closed in
                    let (words'', new_info', rest, learns, all) =
                      learn_bits-Learns (j + 1) rounds words' (new_info + 1) (omega arith)
                        marks.closed
                        (λ k le lt.
                          same k (omega arith) lt
                          ∙ sym (
                              others-Marks words words' (i * 64 + j) marks (i * 64 + k)
                                (λ e. absurd (omega arith))))
                        (λ k lt has. marks.keeps successor (i * 64 + k) (source k lt has)) in
                    (
                      words'',
                      new_info',
                      (rw (new, returned) rest),
                      Learns-trans
                          (Marks-Learns words words' (i * 64 + j) new_info inside old has_new marks)
                          learns,
                      λ k le lt in_count has. elim (ℕ_discrete k j) [
                        | yes e ↦ learns.keeps s (i * 64 + k) (
                            subst (λ m. known words' s (i * 64 + m) ≡ true) (sym e)
                              (marks.marks s self))
                        | no other ↦ all k (omega arith) (omega arith) in_count has
                      ],
                    )
                | inr nothing ↦
                    let (words', new_info', rest, learns, all) =
                      learn_bits-Learns (j + 1) rounds words new_info (omega arith) closed
                        (λ k le lt. same k (omega arith) lt) source in
                    (
                      words',
                      new_info',
                      (rw nothing rest),
                      learns,
                      λ k le lt in_count has. elim (ℕ_discrete k j) [
                        | yes e ↦ learns.keeps s (i * 64 + k) (
                            subst (λ m. known words s (i * 64 + m) ≡ true) (sym e)
                              (sym (same j (omega arith) (omega arith))
                                ∙ sym (bit_of_lem word_dst j)
                                ∙ left_true (bit_of word_dst j) (bit_of word_src j) nothing
                                    (bit_of_lem word_src j ∙ ap (testbit word_src) (sym e) ∙ has)))
                        | no other ↦ all k (omega arith) (omega arith) in_count has
                      ],
                    )
              ])
        ]

  learn_words-Learns :
      (i rounds : ℕ) (words : Words) (new_info : ℕ)
      → IsClosed previous words
      → (words' : Words) × (new_info' : ℕ) × (learn_words previous liveness_count calls s successor
            i rounds words new_info
          ≡ done (words', new_info'))
        × Learns words words' new_info new_info'
        × ((j : ℕ)
            → i * 64 ≤ j
            → j < (i + rounds) * 64
            → j < liveness_count
            → known words successor j ≡ true
            → known words' s j ≡ true)
  unfolding learn_words
  learn_words-Learns i zero words new_info closed =
      (words, new_info, refl, Learns-refl words new_info closed, λ j le lt. absurd (omega arith))
  learn_words-Learns i (suc rounds) words new_info closed =
      let (words', new_info', returned, learns, all) =
        learn_bits-Learns i (words successor i) (words s i) 0 64 words new_info (omega arith) closed
          (λ k le lt. sym (known_at words s i k lt))
          (λ k lt has. known_at words successor i k lt ∙ has) in
      let (words'', new_info'', rest, learns', all') =
        learn_words-Learns (i + 1) rounds words' new_info' learns.closed in
      (
        words'',
        new_info'',
        (rw returned rest),
        Learns-trans learns learns',
        λ j le lt in_count has. elim (dec_lt j ((i + 1) * 64)) [
          | yes here ↦
              let at : i * 64 + (j - i * 64) ≡ j = omega arith in
              learns'.keeps s j (
                subst (λ m. known words' s m ≡ true) at
                  (all (j - i * 64) (omega arith) (omega arith) (omega (arith, at)) (
                    sym (known_at words successor i (j - i * 64) (omega arith))
                    ∙ ap (known words successor) at
                    ∙ has)))
          | no later ↦ all' j (omega arith) (omega arith) in_count (learns.keeps successor j has)
        ],
      )

  -- Of a state and a successor, neither null, where what is known of a state is known of the one that it
  -- was reached from and no state is reached from itself: learn_liveness returns. What is known of the
  -- successor is known of the state then, nothing becomes known but what is known of the successor, of
  -- states on the state's way, and the result is the number by which unknown_liveness of the state fell.
  pub learn_liveness-Learns :
      (words : Words)
      → successor ≢ 0
      → IsClosed previous words
      → (words' : Words) × (new_info : ℕ) × (learn_liveness previous liveness_count calls words s
            successor
          ≡ done (words', new_info))
        × (new_info + unknown_liveness liveness_count words' s
            ≡ unknown_liveness liveness_count words s)
        × ((j : ℕ) → j < liveness_count → known words successor j ≡ true → known words' s j ≡ true)
        × Learns words words' 0 new_info
  unfolding learn_liveness
  learn_liveness-Learns words other closed =
      let (words', new_info, returned, learns, all) =
        learn_words-Learns 0 (words_for liveness_count) words 0 closed in
      (
        words',
        new_info,
        (rw (not_null s present, not_null successor other) returned),
        omega (
          arith,
          learns.counted,
          unknown_liveness_lem liveness_count words' s,
          unknown_liveness_lem liveness_count words s,
        ),
        (λ j inside has.
            all j (omega arith) (omega (arith, le-words_for liveness_count)) inside has),
        learns,
      )
