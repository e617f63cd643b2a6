-- ===== src/Checker/Seen/Insert.antt =====
-- What the probing loop of `set_insert` does to the set of states.
use native.Mathlib.Nat.{one-le-pow, mod-eq_of_lt, mod-lt, add-mul-mod_self_right}
use rumur.Prelude.{
  ℕ, ◌+◌, ◌-◌, ◌*◌, ◌%◌, ◌^◌, ◌<◌, ◌≡◌, ◌≢◌, refl, sym, ◌∙◌, ap, subst, Bool-cases, inl, inr, true,
  false, leb, arith, ◌⊎◌, ◌↔◌,
}
use rumur.Prelude.Results.{ok}
use rumur.Checker.Slot.Laws.{IsPointer, state_to_slot-packed, bit_and-mask}
use rumur.Checker.Seen.{
  States, IsStates, Bucket, set_size, set_index, added, present, full, insert_probe,
}
use rumur.Checker.Seen.Found.{probed, set_index-lt}
use rumur.Checker.Seen.Inserted.{
  Has, place, Passed, insert_rest, held-not_empty, adds, finds, fills, insert-walk,
}
use rumur.Checker.Seen.Kept.{IsSlotSet, grown, fresh, kept, new_place, old_or_new, grown-IsSlotSet}

clash : true ≡ false → ⊥
clash e = cc

module _ (states : States) (laws : IsStates states) (pointer_bits e : ℕ) where
  -- A state is in the set where an equal one is stored.
  abbrev pub Member : Bucket → ℕ → Type 0
  Member bucket q =
      (i : ℕ) × (p : ℕ) × Has states laws pointer_bits e bucket i p × (states.state_eq q p ≡ true)

  -- the bucket that set_init and set_expand allocate
  abbrev pub no_slots : Bucket
  no_slots i = 0

  pub no_slots-IsSlotSet : IsSlotSet states laws pointer_bits e no_slots
  no_slots-IsSlotSet = record {
    stored = λ i within. inl refl;
    reachable =
        λ i p holds. absurd (held-not_empty states laws pointer_bits e no_slots i p holds refl);
    unique = λ i j p q holds _ _.
        absurd (held-not_empty states laws pointer_bits e no_slots i p holds refl);
  }

  -- the index i is probed in the round (i - h) mod 2^e
  wrapped : (n h i : ℕ) → h < n → i < n → (h + (i + n - h) % n) % n ≡ i
  wrapped n h i lt lt' = elim (Bool-cases (leb h i)) [
    | inl le ↦
        let sum : i + n - h ≡ i - h + 1 * n = ground arith in
        let rest : (i + n - h) % n ≡ i - h =
          ap (λ j. j % n) sum ∙ add-mul-mod_self_right (i - h) 1 n ∙ mod-eq_of_lt (omega arith) in
        let back : h + (i - h) ≡ i = ground arith in
        ap (λ j. (h + j) % n) rest ∙ ap (λ j. j % n) back ∙ mod-eq_of_lt lt'
    | inr gt ↦
        let below : i + n - h < n = ground arith in
        let back : h + (i + n - h) ≡ i + 1 * n = ground arith in
        ap (λ j. (h + j) % n) (mod-eq_of_lt below)
        ∙ ap (λ j. j % n) back
        ∙ add-mul-mod_self_right i 1 n
        ∙ mod-eq_of_lt lt'
  ]

  abbrev pub Extends : Bucket → ℕ → Bucket → Type 0
  Extends bucket s bucket' =
      (q : ℕ) → Member bucket' q ↔ (Member bucket q ⊎ (states.state_eq q s ≡ true))

  pub set_index-mod : (i : ℕ) → set_index e i ≡ i % 2 ^ e
  unfolding set_index set_size
  set_index-mod i = bit_and-mask e i

  -- every index is probed
  pub probed_onto :
      (s i : ℕ) → i < 2 ^ e → (j : ℕ) × (j < 2 ^ e) × (probed states laws pointer_bits e s j ≡ i)
  probed_onto s i within =
      let n = 2 ^ e in
      let h = set_index e (states.state_hash s) in
      let j = (i + n - h) % n in
      (
        j,
        mod-lt _ (one-le-pow e 2 (omega arith)),
        set_index-mod (h + j) ∙ wrapped n h i (set_index-lt e _) within,
      )

  insert_rest-insert_probe :
      (bucket : Bucket) (s : ℕ) (set : IsSlotSet states laws pointer_bits e bucket)
      (valid : IsPointer pointer_bits s)
      → insert_probe states pointer_bits e bucket s
        ≡ insert_rest states laws pointer_bits e bucket set.stored s valid 0 (2 ^ e)
  unfolding insert_probe set_size
  insert_rest-insert_probe bucket s set valid =
      rw (state_to_slot-packed pointer_bits s (states.state_hash s) valid) refl

  extends :
      (bucket : Bucket) (s : ℕ) (set : IsSlotSet states laws pointer_bits e bucket)
      (valid : IsPointer pointer_bits s) (k : ℕ) (lt : k < 2 ^ e)
      (empty : bucket (place states laws pointer_bits e bucket set.stored s valid k) ≡ 0)
      (passed : Passed states laws pointer_bits e bucket set.stored s valid k)
      → Extends bucket s (grown states laws pointer_bits e bucket set s valid k lt empty passed)
  extends bucket s set valid k lt empty passed q = (
    λ (i, p, holds, same).
        elim (old_or_new states laws pointer_bits e bucket set s valid k lt empty passed i p
          holds) [
            | inl old ↦ inl (i, p, old, same)
            | inr (_, new) ↦ inr (subst (λ n. states.state_eq q n ≡ true) new same)
          ],
    λ either. elim either [
      | inl (i, p, holds, same) ↦ (
        i,
        p,
        kept states laws pointer_bits e bucket set s valid k lt empty passed i p holds,
        same,
      )
      | inr same ↦
          (_, s, new_place states laws pointer_bits e bucket set s valid k lt empty passed, same)
    ],
  )

  -- On a set, the probing loop of set_insert for a state ends in one of three ways: it adds the state,
  -- where no equal one was stored, and leaves a set with this state and those of before; it changes
  -- nothing, and an equal state is stored; or no entry of the set is empty.
  pub insert_probe-cases :
      (bucket : Bucket) (s : ℕ)
      → IsSlotSet states laws pointer_bits e bucket
      → IsPointer pointer_bits s
      → ((bucket' : Bucket) × (insert_probe states pointer_bits e bucket s ≡ ok (added bucket'))
          × ¬ Member bucket s
          × IsSlotSet states laws pointer_bits e bucket'
          × Extends bucket s bucket')
        ⊎ (((insert_probe states pointer_bits e bucket s ≡ ok present) × Member bucket s)
            ⊎ ((insert_probe states pointer_bits e bucket s ≡ ok full)
                × ((i : ℕ) → i < 2 ^ e → bucket i ≢ 0)))
  insert_probe-cases bucket s set valid =
      let start : insert_probe states pointer_bits e bucket s
          ≡ insert_rest states laws pointer_bits e bucket set.stored s valid 0 (2 ^ e) =
        insert_rest-insert_probe bucket s set valid in
      elim (insert-walk states laws pointer_bits e bucket set.stored s valid 0 (2 ^ e) (omega arith)
        (λ j lt. absurd (omega arith))) [
          | adds k lt empty passed returned ↦
              let bucket' = grown states laws pointer_bits e bucket set s valid k lt empty passed in
              inl (
                bucket',
                start ∙ returned,
                λ (i, p, holds, same). absurd (
                    clash (
                      sym same
                      ∙ fresh states laws pointer_bits e bucket set s valid k lt empty passed i p
                          holds)),
                grown-IsSlotSet states laws pointer_bits e bucket set s valid k lt empty passed,
                extends bucket s set valid k lt empty passed,
              )
          | finds i p holds same returned ↦ inr (inl (start ∙ returned, (i, p, holds, same)))
          | fills passed returned ↦ inr (
              inr (
                start ∙ returned,
                λ i within none.
                    let (j, below, at) = probed_onto s i within in
                    (passed j below).0 (ap bucket at ∙ none),
              ))
        ]
