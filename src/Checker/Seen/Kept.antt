-- ===== src/Checker/Seen/Kept.antt =====
-- The set stays a set when the probing loop of `set_insert` adds a state.
use rumur.Prelude.{
  ℕ, ◌+◌, ◌^◌, ◌<◌, ◌≡◌, ◌≢◌, sym, ◌∙◌, ap, subst, Bool-cases, inl, inr, true, false, ltb, ◌==◌,
  arith, ◌⊎◌,
}
use rumur.Checker.Slot.Laws.{IsPointer}
use rumur.Checker.Seen.{States, IsStates, Bucket, set_index, set_bucket}
use rumur.Checker.Seen.Found.{set_index-lt, slot_of, probed, IsStored, IsReachable}
use rumur.Checker.Seen.Inserted.{
  set_bucket-same, set_bucket-other, Has, same_slot, held-not_empty, place, Passed,
}

clash : true ≡ false → ⊥
clash e = cc

module _ (states : States) (laws : IsStates states) (pointer_bits e : ℕ) where
  -- A bucket that stores states which searches reach, no two of them equal.
  pub record IsSlotSet (bucket : Bucket) : Type 0 where
    pub stored : IsStored states laws pointer_bits e bucket
    pub reachable : IsReachable states laws pointer_bits e bucket
    pub unique :
        (i j p q : ℕ)
        → Has states laws pointer_bits e bucket i p
        → Has states laws pointer_bits e bucket j q
        → states.state_eq p q ≡ true
        → i ≡ j

  module _ (bucket : Bucket) (set : IsSlotSet bucket) (s : ℕ) (valid : IsPointer pointer_bits s)
      (k : ℕ) (lt : k < 2 ^ e)
      (empty : bucket (place states laws pointer_bits e bucket set.stored s valid k) ≡ 0)
      (passed : Passed states laws pointer_bits e bucket set.stored s valid k) where
    abbrev At : Bucket → ℕ → ℕ → Type 0
    At = Has states laws pointer_bits e

    abbrev pub here : ℕ
    here = probed states laws pointer_bits e s k

    abbrev pub grown : Bucket
    grown = set_bucket bucket here (slot_of states laws pointer_bits e s)

    pub new_place : At grown here s
    new_place = (set_index-lt e _, valid, set_bucket-same bucket here _)

    not_here : (i p : ℕ) → At bucket i p → i ≢ here
    not_here i p holds index =
        held-not_empty states laws pointer_bits e bucket i p holds (ap bucket index ∙ empty)

    pub kept : (i p : ℕ) → At bucket i p → At grown i p
    kept i p holds =
        let (within, pointer, at) = holds in
        (within, pointer, set_bucket-other bucket here _ i (not_here i p holds) ∙ at)

    -- a state in the grown bucket is an old one or the new one
    pub old_or_new : (i p : ℕ) → At grown i p → At bucket i p ⊎ ((i ≡ here) × (p ≡ s))
    old_or_new i p holds = elim (Bool-cases (i == here)) [
      | inl new ↦
          let index : i ≡ here = ground arith in
          let moved : At grown i s = subst (λ n. At grown n s) (sym index) new_place in
          inr (index, same_slot states laws pointer_bits e grown i p s holds moved)
      | inr other ↦
          let (within, pointer, at) = holds in
          let differ : i ≢ here = ground arith in
          inl (within, pointer, sym (set_bucket-other bucket here _ i differ) ∙ at)
    ]

    stays_full : (i : ℕ) → bucket i ≢ 0 → grown i ≢ 0
    stays_full i some none =
        some
          (sym (set_bucket-other bucket here _ i (λ index. some (ap bucket index ∙ empty))) ∙ none)

    -- No stored state is equal to the one that is added.
    pub fresh : (i p : ℕ) → At bucket i p → states.state_eq s p ≡ false
    fresh i p holds = elim (Bool-cases (states.state_eq s p)) [
      | inl same ↦
          let (n, _, index, full_before) = set.reachable i p holds in
          let one_hash : (j : ℕ)
              → probed states laws pointer_bits e p j ≡ probed states laws pointer_bits e s j =
            λ j. ap (λ h. set_index e (set_index e h + j)) (sym (laws.same_hash s p same)) in
          elim (Bool-cases (ltb n k)) [
            | inl before ↦
                let at : At bucket (probed states laws pointer_bits e s n) p =
                  subst (λ j. At bucket j p) (index ∙ one_hash n) holds in
                (passed n (ground arith)).1 p at
            | inr later ↦ elim (Bool-cases (n == k)) [
              | inl now ↦
                  let last : n ≡ k = ground arith in
                  absurd (
                    not_here i p holds
                      (index ∙ one_hash n ∙ ap (probed states laws pointer_bits e s) last))
              | inr after ↦ absurd (full_before k (ground arith) (ap bucket (one_hash k) ∙ empty))
            ]
          ]
      | inr other ↦ other
    ]

    grown-IsStored : IsStored states laws pointer_bits e grown
    grown-IsStored i within = elim (Bool-cases (i == here)) [
      | inl new ↦
          let index : i ≡ here = ground arith in
          inr (s, subst (λ n. At grown n s) (sym index) new_place)
      | inr other ↦
          let differ : i ≢ here = ground arith in
          elim (set.stored i within) [
            | inl none ↦ inl (set_bucket-other bucket here _ i differ ∙ none)
            | inr (p, holds) ↦ inr (p, kept i p holds)
          ]
    ]

    grown-IsReachable : IsReachable states laws pointer_bits e grown
    grown-IsReachable i p holds = elim (old_or_new i p holds) [
      | inl old ↦
          let (n, within, index, full_before) = set.reachable i p old in
          (n, within, index, λ j before. stays_full _ (full_before j before))
      | inr (index, new) ↦
          let start : i ≡ probed states laws pointer_bits e p k =
            index ∙ ap (λ q. probed states laws pointer_bits e q k) (sym new) in
          (
            k,
            lt,
            start,
            λ j before. stays_full _ (
                subst (λ q. bucket (probed states laws pointer_bits e q j) ≢ 0) (sym new)
                  ((passed j before).0)),
          )
    ]

    grown_unique : (i j p q : ℕ) → At grown i p → At grown j q → states.state_eq p q ≡ true → i ≡ j
    grown_unique i j p q at at' same = elim (old_or_new i p at) [
      | inl old ↦ elim (old_or_new j q at') [
        | inl old' ↦ set.unique i j p q old old' same
        | inr (index', new') ↦
            let other = fresh i p old in
            let equal : states.state_eq s p ≡ true =
              subst (λ n. states.state_eq n p ≡ true) new' (laws.symmetric p q same) in
            absurd (clash (sym equal ∙ other))
      ]
      | inr (index, new) ↦ elim (old_or_new j q at') [
        | inl old' ↦
            let other = fresh j q old' in
            let equal : states.state_eq s q ≡ true =
              subst (λ n. states.state_eq n q ≡ true) new same in
            absurd (clash (sym equal ∙ other))
        | inr (index', _) ↦ index ∙ sym index'
      ]
    ]

    pub grown-IsSlotSet : IsSlotSet grown
    grown-IsSlotSet = record {
      stored = grown-IsStored;
      reachable = grown-IsReachable;
      unique = grown_unique;
    }
