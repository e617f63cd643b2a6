-- ===== src/Checker/Seen/Inserted.antt =====
-- The probing loop of `set_insert` adds a state exactly where no equal one is stored.
use rumur.Prelude.{
  ℕ, zero, suc, ◌+◌, ◌^◌, ◌<◌, ◌≡◌, ◌≢◌, refl, sym, ◌∙◌, ap, subst, Bool, Bool-cases, inl, inr,
  true, false, if◌then◌else◌, ◌==◌, arith,
}
use rumur.Prelude.Results.{Result, ok}
use rumur.Checker.Slot.{slot_to_state, slot_neq}
use rumur.Checker.Slot.Laws.{
  IsPointer, packed, slot_to_state-packed, packed-not_special, packed-even, slot_neq-packed,
}
use rumur.Checker.Seen.{
  States, IsStates, Bucket, set_index, set_bucket, Probe, added, present, full, insert_from,
}
use rumur.Checker.Seen.Found.{set_index-lt, slot_of, Holds, probed, IsStored}

pub set_bucket-same : (bucket : Bucket) (i slot : ℕ) → set_bucket bucket i slot i ≡ slot
unfolding set_bucket
set_bucket-same bucket i slot = ground arith

pub set_bucket-other :
    (bucket : Bucket) (i slot j : ℕ) → j ≢ i → set_bucket bucket i slot j ≡ bucket j
unfolding set_bucket
set_bucket-other bucket i slot j differ = ground (arith, differ)

skipped {ℓ} :
    {A : Type ℓ} (differ same : Bool) (found next : A)
    → same ≡ false
    → (if differ then next else if same then found else next) ≡ next
skipped true same found next e = refl
skipped false same found next e = rw e refl

module _ (states : States) (laws : IsStates states) (pointer_bits e : ℕ) where
  abbrev pub Has : Bucket → ℕ → ℕ → Type 0
  Has = Holds states laws pointer_bits e

  pub same_slot : (bucket : Bucket) (i p q : ℕ) → Has bucket i p → Has bucket i q → p ≡ q
  same_slot bucket i p q (_, valid, at) (_, valid', at') =
      let slots = sym at ∙ at' in
      let back = ap (slot_to_state pointer_bits) slots in
      let one : ok p ≡ ok q =
        sym (slot_to_state-packed pointer_bits p _ valid)
        ∙ back
        ∙ slot_to_state-packed pointer_bits q _ valid' in
      cc

  pub held-not_empty : (bucket : Bucket) (i p : ℕ) → Has bucket i p → bucket i ≢ 0
  held-not_empty bucket i p (_, valid, at) empty =
      let (above, _) = packed-even pointer_bits p (states.state_hash p) valid in
      let zero : packed pointer_bits p (states.state_hash p) ≡ 0 = sym at ∙ empty in
      absurd (omega arith)

  module _ (bucket : Bucket) (stored : IsStored states laws pointer_bits e bucket) (s : ℕ)
      (valid : IsPointer pointer_bits s) where
    abbrev pub place : ℕ → ℕ
    place attempts = probed states laws pointer_bits e s attempts

    abbrev pub insert_rest : ℕ → ℕ → Result Probe
    insert_rest attempts rounds =
        insert_from states pointer_bits e bucket s (slot_of states laws pointer_bits e s)
          (set_index e (states.state_hash s)) attempts rounds

    insert-held :
        (attempts rounds p : ℕ)
        → Has bucket (place attempts) p
        → insert_rest attempts (suc rounds) ≡ (
            if slot_neq pointer_bits
              (slot_of states laws pointer_bits e s)
              (slot_of states laws pointer_bits e p)
            then insert_rest (attempts + 1) rounds
            else if states.state_eq s p
            then ok present
            else insert_rest (attempts + 1) rounds)
    unfolding insert_from
    insert-held attempts rounds p (lt, pointer, at) =
        let (set, live) = packed-not_special pointer_bits p (states.state_hash p) pointer in
        let unpack = slot_to_state-packed pointer_bits p (states.state_hash p) pointer in
        rw (at, set, live, unpack) refl

    alike :
        (p : ℕ)
        → IsPointer pointer_bits p
        → states.state_eq s p ≡ true
        → slot_neq pointer_bits
            (slot_of states laws pointer_bits e s)
            (slot_of states laws pointer_bits e p)
          ≡ false
    alike p pointer same =
        ap
          (λ h.
            slot_neq pointer_bits (slot_of states laws pointer_bits e s) (packed pointer_bits p h))
          (sym (laws.same_hash s p same))
        ∙ slot_neq-packed pointer_bits s p (states.state_hash s) valid pointer

    -- the entries that the loop has passed
    abbrev pub Passed : ℕ → Type 0
    Passed attempts =
        (j : ℕ)
        → j < attempts
        → (bucket (place j) ≢ 0) × ((p : ℕ) → Has bucket (place j) p → states.state_eq s p ≡ false)

    Passed-on :
        (attempts q : ℕ)
        → Passed attempts
        → Has bucket (place attempts) q
        → states.state_eq s q ≡ false
        → Passed (attempts + 1)
    Passed-on attempts q passed held other j lt = elim (Bool-cases (attempts == j)) [
      | inl here ↦
          let index : attempts ≡ j = ground arith in
          let at : Has bucket (place j) q = subst (λ n. Has bucket (place n) q) index held in
          (
            held-not_empty bucket (place j) q at,
            λ p holds.
                subst (λ n. states.state_eq s n ≡ false) (same_slot bucket (place j) q p at holds)
                  other,
          )
      | inr before ↦ passed j (ground arith)
    ]

    pub data Outcome (result : Result Probe) : Type 0 where
      adds :
          (k : ℕ)
          → k < 2 ^ e
          → bucket (place k) ≡ 0
          → Passed k
          → result ≡ ok (added (set_bucket bucket (place k) (slot_of states laws pointer_bits e s)))
          → Outcome result
      finds :
          (i p : ℕ)
          → Has bucket i p
          → states.state_eq s p ≡ true
          → result ≡ ok present
          → Outcome result
      fills : Passed (2 ^ e) → result ≡ ok full → Outcome result

    pub insert-walk :
        (attempts rounds : ℕ)
        → attempts + rounds ≡ 2 ^ e
        → Passed attempts
        → Outcome (insert_rest attempts rounds)
    unfolding insert_from
    insert-walk attempts zero sum passed = fills (λ j lt. passed j (omega arith)) refl
    insert-walk attempts (suc rounds) sum passed =
        elim (stored (place attempts) (set_index-lt e _)) [
          | inl empty ↦ adds attempts (omega arith) empty passed (rw empty refl)
          | inr (q, held) ↦
              let round = insert-held attempts rounds q held in
              let sum' : attempts + 1 + rounds ≡ 2 ^ e = omega arith in
              elim (Bool-cases (states.state_eq s q)) [
                | inl same ↦
                    finds (place attempts) q held same
                      (round ∙ rw (alike q (held.1) same, same) refl)
                | inr other ↦
                    let next : insert_rest attempts (suc rounds)
                        ≡ insert_rest (attempts + 1) rounds =
                      round ∙ skipped _ _ _ _ other in
                    subst Outcome (sym next) (
                      insert-walk (attempts + 1) rounds sum'
                        (Passed-on attempts q passed held other))
              ]
        ]
