-- ===== src/Checker/Seen/Found.antt =====
-- `set_find` finds the stored states.
use native.Mathlib.Nat.{one-le-pow, mod-lt}
use rumur.Prelude.{
  ℕ, zero, suc, ◌+◌, ◌^◌, ◌≤◌, ◌<◌, ◌≡◌, ◌≢◌, refl, sym, ◌∙◌, ap, subst, Bool-cases, inl, inr, true,
  false, if◌then◌else◌, ◌==◌, arith, Option, some, none, ◌⊎◌,
}
use rumur.Prelude.Results.{Result, ok}
use rumur.Checker.Slot.{slot_neq}
use rumur.Checker.Slot.Laws.{
  IsPointer, packed, bit_and-mask, state_to_slot-packed, slot_to_state-packed, packed-not_special,
  slot_neq-packed,
}
use rumur.Checker.Seen.{States, IsStates, Bucket, set_size, set_index, find_from, set_find}

pub set_index-lt : (e i : ℕ) → set_index e i < 2 ^ e
unfolding set_index set_size
set_index-lt e i = rw (bit_and-mask e i) (mod-lt i (one-le-pow e 2 (omega arith)))

none-some : {n : ℕ} → ok none ≡ ok (some n) → ⊥
none-some e = cc

module _ (states : States) (laws : IsStates states) (pointer_bits e : ℕ) where
  -- the slot of a state
  abbrev pub slot_of : ℕ → ℕ
  slot_of p = packed pointer_bits p (states.state_hash p)

  -- A bucket holds a state at an index.
  abbrev pub Holds : Bucket → ℕ → ℕ → Type 0
  Holds bucket i p = (i < 2 ^ e) × IsPointer pointer_bits p × (bucket i ≡ slot_of p)

  -- the indices at which a state is looked for
  abbrev pub probed : ℕ → ℕ → ℕ
  probed p attempts = set_index e (set_index e (states.state_hash p) + attempts)

  -- Each entry is empty or holds a state, and no entry between a state's first index and its place is empty.
  abbrev pub IsStored : Bucket → Type 0
  IsStored bucket = (i : ℕ) → i < 2 ^ e → (bucket i ≡ 0) ⊎ ((p : ℕ) × Holds bucket i p)

  abbrev pub IsReachable : Bucket → Type 0
  IsReachable bucket =
      (i p : ℕ)
      → Holds bucket i p
      → (k : ℕ) × (k < 2 ^ e) × (i ≡ probed p k) × ((j : ℕ) → j < k → bucket (probed p j) ≢ 0)

  abbrev pub Finds : ℕ → Result (Option ℕ) → Type 0
  Finds s result = (n : ℕ) × (result ≡ ok (some n)) × (states.state_eq s n ≡ true)

  module _ (bucket : Bucket) (stored : IsStored bucket) (s : ℕ)
      (valid : IsPointer pointer_bits s) where
    abbrev find_rest : ℕ → ℕ → Result (Option ℕ)
    find_rest attempts rounds =
        find_from states pointer_bits e bucket s (slot_of s) (set_index e (states.state_hash s))
          attempts rounds

    -- a round at an entry that holds a state
    find-held :
        (attempts rounds p : ℕ)
        → Holds bucket (probed s attempts) p
        → find_rest attempts (suc rounds) ≡ (
            if slot_neq pointer_bits (slot_of s) (slot_of p)
            then find_rest (attempts + 1) rounds
            else if states.state_eq s p
            then ok (some p)
            else find_rest (attempts + 1) rounds)
    unfolding find_from
    find-held attempts rounds p (lt, pointer, at) =
        let (set, live) = packed-not_special pointer_bits p (states.state_hash p) pointer in
        let (above, _, _, _, _) = pointer in
        let unpack = slot_to_state-packed pointer_bits p (states.state_hash p) pointer in
        let address : (p == 0) ≡ false = ground arith in rw (at, set, live, unpack, address) refl

    -- an entry that a search visits, where it does not return the state there
    passed :
        (attempts rounds p : ℕ)
        → Holds bucket (probed s attempts) p
        → ((find_rest attempts (suc rounds) ≡ ok (some p)) × (states.state_eq s p ≡ true))
          ⊎ (find_rest attempts (suc rounds) ≡ find_rest (attempts + 1) rounds)
    passed attempts rounds p holds =
        let held = find-held attempts rounds p holds in
        elim (Bool-cases (slot_neq pointer_bits (slot_of s) (slot_of p))) [
          | inl differ ↦ inr (held ∙ rw differ refl)
          | inr alike ↦ elim (Bool-cases (states.state_eq s p)) [
            | inl same ↦ inl (held ∙ rw (alike, same) refl, same)
            | inr other ↦ inr (held ∙ rw (alike, other) refl)
          ]
        ]

    -- the entry that the search is for
    reached :
        (attempts rounds p : ℕ)
        → Holds bucket (probed s attempts) p
        → states.state_eq s p ≡ true
        → Finds s (find_rest attempts (suc rounds))
    reached attempts rounds p holds same =
        let (_, pointer, _) = holds in
        let hash = laws.same_hash s p same in
        let alike : slot_neq pointer_bits (slot_of s) (slot_of p) ≡ false =
          ap (λ h. slot_neq pointer_bits (slot_of s) (packed pointer_bits p h)) (sym hash)
          ∙ slot_neq-packed pointer_bits s p (states.state_hash s) valid pointer in
        (p, find-held attempts rounds p holds ∙ rw (alike, same) refl, same)

    find-walk :
        (attempts rounds k p : ℕ)
        → attempts + rounds ≡ 2 ^ e
        → attempts ≤ k
        → k < 2 ^ e
        → Holds bucket (probed s k) p
        → states.state_eq s p ≡ true
        → ((j : ℕ) → j < k → bucket (probed s j) ≢ 0)
        → Finds s (find_rest attempts rounds)
    find-walk attempts zero k p sum le lt holds same full = absurd (omega arith)
    find-walk attempts (suc rounds) k p sum le lt holds same full =
        elim (Bool-cases (attempts == k)) [
          | inl here ↦
              let index : k ≡ attempts = ground arith in
              reached attempts rounds p (subst (λ n. Holds bucket (probed s n) p) index holds) same
          | inr before ↦ elim (stored (probed s attempts) (set_index-lt e _)) [
            | inl empty ↦ absurd (full attempts (ground arith) empty)
            | inr (q, held) ↦ elim (passed attempts rounds q held) [
              | inl (found, same_q) ↦ (q, found, same_q)
              | inr next ↦ subst (Finds s) (sym next) (
                  find-walk (attempts + 1) rounds k p (omega arith) (ground arith) lt holds same
                    full)
            ]
          ]
        ]

    -- A search ends with a stored state that is equal, or with none.
    abbrev Ends : Result (Option ℕ) → Type 0
    Ends result =
        ((n : ℕ) × (result ≡ ok (some n))
          × (states.state_eq s n ≡ true)
          × ((i : ℕ) × Holds bucket i n))
        ⊎ (result ≡ ok none)

    find-Ends : (attempts rounds : ℕ) → Ends (find_rest attempts rounds)
    unfolding find_from
    find-Ends attempts zero = inr refl
    find-Ends attempts (suc rounds) = elim (stored (probed s attempts) (set_index-lt e _)) [
      | inl empty ↦ inr (rw empty refl)
      | inr (q, held) ↦ elim (passed attempts rounds q held) [
        | inl (found, same) ↦ inl (q, found, same, (probed s attempts, held))
        | inr next ↦ subst Ends (sym next) (find-Ends (attempts + 1) rounds)
      ]
    ]

    find_rest-set_find : set_find states pointer_bits e bucket s ≡ find_rest 0 (2 ^ e)
    unfolding set_find set_size
    find_rest-set_find = rw (state_to_slot-packed pointer_bits s (states.state_hash s) valid) refl

    -- A state that equals a stored one is found.
    pub set_find-Finds :
        IsReachable bucket
        → (i p : ℕ) → Holds bucket i p
        → states.state_eq s p ≡ true
        → Finds s (set_find states pointer_bits e bucket s)
    set_find-Finds reachable i p holds same =
        let (k, lt, place, full) = reachable i p holds in
        let index : (j : ℕ) → probed p j ≡ probed s j =
          λ j. ap (λ h. set_index e (set_index e h + j)) (sym (laws.same_hash s p same)) in
        let at : Holds bucket (probed s k) p =
          subst (λ n. Holds bucket n p) (place ∙ index k) holds in
        let walked =
          find-walk 0 (2 ^ e) k p (omega arith) (omega arith) lt at same
            (λ j before empty. full j before (ap bucket (index j) ∙ empty)) in
        subst (Finds s) (sym find_rest-set_find) walked

    -- On a set whose entries hold states that their searches reach, set_find of a state returns a stored
    -- state that is equal to it, or else returns none and no stored state is equal to it.
    pub set_find-cases :
        IsReachable bucket
        → ((n : ℕ) × (set_find states pointer_bits e bucket s ≡ ok (some n))
            × (states.state_eq s n ≡ true)
            × ((i : ℕ) × Holds bucket i n))
          ⊎ ((set_find states pointer_bits e bucket s ≡ ok none)
              × ((i p : ℕ) → Holds bucket i p → states.state_eq s p ≡ false))
    set_find-cases reachable = elim (find-Ends 0 (2 ^ e)) [
      | inl (n, found, same, place) ↦ inl (n, find_rest-set_find ∙ found, same, place)
      | inr missed ↦
          let missing : set_find states pointer_bits e bucket s ≡ ok none =
            find_rest-set_find ∙ missed in
          inr (
            missing,
            λ i p holds. elim (Bool-cases (states.state_eq s p)) [
              | inl same ↦
                  let (n, found, _) = set_find-Finds reachable i p holds same in
                  absurd (none-some (sym missing ∙ found))
              | inr other ↦ other
            ],
          )
    ]
