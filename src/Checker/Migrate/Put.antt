-- ===== src/Checker/Migrate/Put.antt =====
-- One round of the loop that shuffles: the state in hand takes the place of another.
use native.Mathlib.Nat.{mod-add-mod}
use rumur.Prelude.{
  ℕ, ◌+◌, ◌%◌, ◌^◌, ◌≤◌, ◌<◌, ◌≡◌, ◌≢◌, sym, ◌∙◌, ap, subst, Bool-cases, inl, inr, true, false, ltb,
  ◌==◌, arith, ◌⊎◌, ◌↔◌,
}
use rumur.Checker.Slot.Laws.{IsPointer}
use rumur.Checker.Seen.{States, IsStates, Bucket, set_index, set_bucket}
use rumur.Checker.Seen.Found.{set_index-lt, slot_of, probed, IsStored, IsReachable}
use rumur.Checker.Seen.Inserted.{set_bucket-same, set_bucket-other, Has, same_slot, held-not_empty}
use rumur.Checker.Seen.Kept.{IsSlotSet}
use rumur.Checker.Seen.Insert.{Member, probed_onto, set_index-mod}

clash : true ≡ false → ⊥
clash e = cc

after_eq : {n : ℕ} (a b : ℕ) → a ≢ b → b ≤ a → a < n → b + 1 < n
after_eq a b differ le less = elim (Bool-cases (a == b)) [
  | inl same ↦ absurd (differ (ground arith))
  | inr other ↦ ground arith
]

after_lt : {n : ℕ} (a b : ℕ) → a ≢ b → ¬ (a < b) → a < n → b + 1 < n
after_lt a b differ not_less less = elim (Bool-cases (ltb a b)) [
  | inl earlier ↦ absurd (not_less (ground arith))
  | inr late ↦ after_eq a b differ (ground arith) less
]

module _ (states : States) (laws : IsStates states) (pointer_bits e : ℕ) where
  abbrev At : Bucket → ℕ → ℕ → Type 0
  At = Has states laws pointer_bits e

  abbrev probe : ℕ → ℕ → ℕ
  probe = probed states laws pointer_bits e

  next_probe : (q n : ℕ) → set_index e (probe q n + 1) ≡ probe q (n + 1)
  next_probe q n =
      let h = set_index e (states.state_hash q) in
      let sum : h + n + 1 ≡ h + (n + 1) = omega arith in
      set_index-mod states laws pointer_bits e (probe q n + 1)
      ∙ ap (λ i. (i + 1) % 2 ^ e) (set_index-mod states laws pointer_bits e (h + n))
      ∙ mod-add-mod (h + n) (2 ^ e) 1
      ∙ ap (λ i. i % 2 ^ e) sum
      ∙ sym (set_index-mod states laws pointer_bits e (h + (n + 1)))

  -- A state in hand, to be stored at index j, which its search reaches in round k.
  pub record InHand (next : Bucket) (p j k : ℕ) : Type 0 where
    pub valid : IsPointer pointer_bits p
    pub round : k < 2 ^ e
    pub place : j ≡ probe p k
    pub full_before : (i : ℕ) → i < k → next (probe p i) ≢ 0
    pub fresh : (i q : ℕ) → At next i q → states.state_eq p q ≡ false

  module _ (next : Bucket) (set : IsSlotSet states laws pointer_bits e next) (p j k : ℕ)
      (hand : InHand next p j k) where
    abbrev pub put : Bucket
    put = set_bucket next j (slot_of states laws pointer_bits e p)

    pub put_here : At put j p
    put_here = (
      subst (λ i. i < 2 ^ e) (sym hand.place) (set_index-lt e _),
      hand.valid,
      set_bucket-same next j _,
    )

    pub put_there : (i q : ℕ) → i ≢ j → At next i q → At put i q
    put_there i q other (within, valid, at) =
        (within, valid, set_bucket-other next j _ i other ∙ at)

    old_or_new : (i q : ℕ) → At put i q → ((i ≢ j) × At next i q) ⊎ ((i ≡ j) × (q ≡ p))
    old_or_new i q holds = elim (Bool-cases (i == j)) [
      | inl new ↦
          let index : i ≡ j = ground arith in
          let moved : At put i p = subst (λ n. At put n p) (sym index) put_here in
          inr (index, same_slot states laws pointer_bits e put i q p holds moved)
      | inr other ↦
          let (within, pointer, at) = holds in
          let differ : i ≢ j = ground arith in
          inl (differ, (within, pointer, sym (set_bucket-other next j _ i differ) ∙ at))
    ]

    put_full : (i : ℕ) → next i ≢ 0 → put i ≢ 0
    put_full i occupied empty = elim (Bool-cases (i == j)) [
      | inl same ↦
          let index : i ≡ j = ground arith in
          held-not_empty states laws pointer_bits e put i p
            (subst (λ n. At put n p) (sym index) put_here) empty
      | inr other ↦
          let differ : i ≢ j = ground arith in
          occupied (sym (set_bucket-other next j _ i differ) ∙ empty)
    ]

    put-IsReachable : IsReachable states laws pointer_bits e put
    put-IsReachable i q holds = elim (old_or_new i q holds) [
      | inl (_, old) ↦
          let (n, within, index, before) = set.reachable i q old in
          (n, within, index, λ m less. put_full _ (before m less))
      | inr (index, new) ↦
          let start : i ≡ probe q k = index ∙ hand.place ∙ ap (λ x. probe x k) (sym new) in
          (
            k,
            hand.round,
            start,
            λ m less.
                put_full _ (subst (λ x. next (probe x m) ≢ 0) (sym new) (hand.full_before m less)),
          )
    ]

    put-IsStored : IsStored states laws pointer_bits e put
    put-IsStored i within = elim (Bool-cases (i == j)) [
      | inl same ↦
          let index : i ≡ j = ground arith in inr (p, subst (λ n. At put n p) (sym index) put_here)
      | inr other ↦
          let differ : i ≢ j = ground arith in
          elim (set.stored i within) [
            | inl empty ↦ inl (set_bucket-other next j _ i differ ∙ empty)
            | inr (q, holds) ↦ inr (q, put_there i q differ holds)
          ]
    ]

    put_unique : (a b x y : ℕ) → At put a x → At put b y → states.state_eq x y ≡ true → a ≡ b
    put_unique a b x y at at' same = elim (old_or_new a x at) [
      | inl (_, old) ↦ elim (old_or_new b y at') [
        | inl (_, old') ↦ set.unique a b x y old old' same
        | inr (_, new') ↦ absurd (
            clash (
              sym (subst (λ n. states.state_eq n x ≡ true) new' (laws.symmetric x y same))
              ∙ hand.fresh a x old))
      ]
      | inr (index, new) ↦ elim (old_or_new b y at') [
        | inl (_, old') ↦
            absurd
              (clash (sym (subst (λ n. states.state_eq n y ≡ true) new same) ∙ hand.fresh b y old'))
        | inr (index', _) ↦ index ∙ sym index'
      ]
    ]

    pub put-IsSlotSet : IsSlotSet states laws pointer_bits e put
    put-IsSlotSet = record {
      stored = put-IsStored;
      reachable = put-IsReachable;
      unique = put_unique;
    }

    -- the state that stood there is in hand next
    pub put-InHand :
        (q i0 : ℕ)
        → At next j q
        → i0 < 2 ^ e
        → next i0 ≡ 0
        → (n : ℕ) × InHand put q (set_index e (j + 1)) n
    put-InHand q i0 holds within empty =
        let (n, less, index, before) = set.reachable j q holds in
        let (m, below, at) = probed_onto states laws pointer_bits e q i0 within in
        let occupied : next j ≢ 0 = held-not_empty states laws pointer_bits e next j q holds in
        let not_last : m ≢ n =
          λ same. occupied (ap next (index ∙ ap (probe q) (sym same) ∙ at) ∙ empty) in
        let not_before : ¬ (m < n) = λ earlier. before m earlier (ap next at ∙ empty) in
        let room : n + 1 < 2 ^ e = after_lt m n not_last not_before below in
        (
          n + 1,
          record {
            valid = holds.1;
            round = room;
            place = ap (λ i. set_index e (i + 1)) index ∙ next_probe q n;
            full_before = λ i less'. elim (Bool-cases (i == n)) [
              | inl same ↦
                  let last : i ≡ n = ground arith in
                  put_full _ (λ gone. occupied (ap next (index ∙ ap (probe q) (sym last)) ∙ gone))
              | inr other ↦ put_full _ (before i (ground arith))
            ];
            fresh = λ i x at_x. elim (Bool-cases (states.state_eq q x)) [
              | inl same ↦ elim (old_or_new i x at_x) [
                | inl (differ, old) ↦
                    absurd (differ (set.unique i j x q old holds (laws.symmetric q x same)))
                | inr (_, new) ↦
                    let equal : states.state_eq p q ≡ true =
                      laws.symmetric q p (subst (λ y. states.state_eq q y ≡ true) new same) in
                    absurd (clash (sym equal ∙ hand.fresh j q holds))
              ]
              | inr other ↦ other
            ];
          },
        )

    pub Member-moved :
        (q x : ℕ)
        → At next j q
        → (Member states laws pointer_bits e put x ⊎ (states.state_eq x q ≡ true))
          ↔ (Member states laws pointer_bits e next x ⊎ (states.state_eq x p ≡ true))
    Member-moved q x holds = (
      λ either. elim either [
        | inl (i, y, at, same) ↦ elim (old_or_new i y at) [
          | inl (_, old) ↦ inl (i, y, old, same)
          | inr (_, new) ↦ inr (subst (λ z. states.state_eq x z ≡ true) new same)
        ]
        | inr same ↦ inl (j, q, holds, same)
      ],
      λ either. elim either [
        | inl (i, y, at, same) ↦ elim (Bool-cases (i == j)) [
          | inl here ↦
              let index : i ≡ j = ground arith in
              let one : y ≡ q =
                same_slot states laws pointer_bits e next j y q (subst (λ n. At next n y) index at)
                  holds in
              inr (subst (λ z. states.state_eq x z ≡ true) one same)
          | inr other ↦ inl (i, y, put_there i y (ground arith) at, same)
        ]
        | inr same ↦ inl (j, p, put_here, same)
      ],
    )

    pub Member-put :
        (x : ℕ)
        → next j ≡ 0
        → Member states laws pointer_bits e put x
          ↔ (Member states laws pointer_bits e next x ⊎ (states.state_eq x p ≡ true))
    Member-put x empty = (
      λ (i, y, at, same). elim (old_or_new i y at) [
        | inl (_, old) ↦ inl (i, y, old, same)
        | inr (_, new) ↦ inr (subst (λ z. states.state_eq x z ≡ true) new same)
      ],
      λ either. elim either [
        | inl (i, y, at, same) ↦
            let other : i ≢ j = λ index.
              held-not_empty states laws pointer_bits e next i y at (ap next index ∙ empty) in
            (i, y, put_there i y other at, same)
        | inr same ↦ (j, p, put_here, same)
      ],
    )
