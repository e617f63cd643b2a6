-- ===== src/Checker/Migrate/Shuffle.antt =====
-- The innermost loop of `set_migrate` inserts a state into the next set.
use native.Mathlib.Nat.{mod-eq_of_lt, mod-add-mod}
use rumur.Prelude.{
  ℕ, zero, suc, ◌+◌, ◌-◌, ◌%◌, ◌^◌, ◌<◌, ◌≡◌, ◌≢◌, refl, sym, ◌∙◌, ap, inl, inr, if◌then◌else◌,
  arith, some,
}
use rumur.Checker.Slot.Laws.{IsPointer, packed-not_special}
use rumur.Checker.Seen.{States, IsStates, Bucket, set_index, set_bucket}
use rumur.Checker.Seen.Found.{set_index-lt, slot_of}
use rumur.Checker.Seen.Inserted.{set_bucket-other, held-not_empty}
use rumur.Checker.Seen.Kept.{IsSlotSet}
use rumur.Checker.Seen.Insert.{Extends, set_index-mod}
use rumur.Checker.Migrate.Put.{
  InHand, put, put_here, put-IsSlotSet, put-InHand, Member-moved, Member-put,
}
use rumur.Checker.Migrate.{shuffle}

module _ (states : States) (laws : IsStates states) (pointer_bits e : ℕ) where
  shuffle-ended : (next : Bucket) (j fuel : ℕ) → shuffle e next j 0 fuel ≡ some next
  unfolding shuffle
  shuffle-ended next j zero = refl
  shuffle-ended next j (suc fuel) = refl

  shuffle-step :
      (next : Bucket) (p j fuel : ℕ)
      → IsPointer pointer_bits p
      → shuffle e next j (slot_of states laws pointer_bits e p) (suc fuel)
        ≡ shuffle e
            (set_bucket next j (slot_of states laws pointer_bits e p))
            (set_index e (j + 1))
            (next j)
            fuel
  unfolding shuffle
  shuffle-step next p j fuel valid =
      let (some_slot, _) = packed-not_special pointer_bits p (states.state_hash p) valid in
      ap
        (λ b.
          if b
          then some next
          else shuffle e (set_bucket next j (slot_of states laws pointer_bits e p))
              (set_index e (j + 1)) (next j) fuel)
        some_slot

  steps_pos : (j d : ℕ) → j < 2 ^ e → set_index e (j + d) ≢ j → 0 < d
  steps_pos j zero within ahead =
      let none_more : j + 0 ≡ j = omega arith in
      absurd (
        ahead (
          set_index-mod states laws pointer_bits e (j + 0)
          ∙ ap (λ i. i % 2 ^ e) none_more
          ∙ mod-eq_of_lt within))
  steps_pos j (suc d) within ahead = omega arith

  one_step : (j d : ℕ) → 0 < d → set_index e (set_index e (j + 1) + (d - 1)) ≡ set_index e (j + d)
  one_step j d later =
      let sum : j + 1 + (d - 1) ≡ j + d = omega arith in
      set_index-mod states laws pointer_bits e (set_index e (j + 1) + (d - 1))
      ∙ ap (λ i. (i + (d - 1)) % 2 ^ e) (set_index-mod states laws pointer_bits e (j + 1))
      ∙ mod-add-mod (j + 1) (2 ^ e) (d - 1)
      ∙ ap (λ i. i % 2 ^ e) sum
      ∙ sym (set_index-mod states laws pointer_bits e (j + d))

  -- With a state in hand that equals no stored one, at an index that its search reaches with no empty
  -- entry before it, and an empty entry d steps on: the loop ends within d + 1 rounds, and leaves a set with
  -- this state and those of before.
  pub shuffle-Extends :
      (next : Bucket) (p j k d fuel : ℕ)
      → IsSlotSet states laws pointer_bits e next
      → InHand states laws pointer_bits e next p j k
      → next (set_index e (j + d)) ≡ 0
      → d < fuel
      → (next' : Bucket) × (shuffle e next j (slot_of states laws pointer_bits e p) fuel
          ≡ some next')
        × IsSlotSet states laws pointer_bits e next'
        × Extends states laws pointer_bits e next p next'
  shuffle-Extends next p j k d zero set hand empty lt = absurd (omega arith)
  shuffle-Extends next p j k d (suc fuel) set hand empty lt =
      let step = shuffle-step next p j fuel hand.valid in
      let (within, _, _) = put_here states laws pointer_bits e next set p j k hand in
      let next_j = put states laws pointer_bits e next set p j k hand in
      elim (set.stored j within) [
        | inl free ↦ (
          next_j,
          step
              ∙ ap (λ s. shuffle e next_j (set_index e (j + 1)) s fuel) free
              ∙ shuffle-ended next_j (set_index e (j + 1)) fuel,
          put-IsSlotSet states laws pointer_bits e next set p j k hand,
          λ x. Member-put states laws pointer_bits e next set p j k hand x free,
        )
        | inr (q, holds) ↦
            let occupied : next j ≢ 0 = held-not_empty states laws pointer_bits e next j q holds in
            let i0 = set_index e (j + d) in
            let ahead : i0 ≢ j = λ same. occupied (ap next (sym same) ∙ empty) in
            let later : 0 < d = steps_pos j d within ahead in
            let (n, hand') =
              put-InHand states laws pointer_bits e next set p j k hand q i0 holds
                (set_index-lt e _) empty in
            let free : next_j (set_index e (set_index e (j + 1) + (d - 1))) ≡ 0 =
              ap next_j (one_step j d later) ∙ set_bucket-other next j _ i0 ahead ∙ empty in
            let (next', ended, set', extended) =
              shuffle-Extends next_j q (set_index e (j + 1)) n (d - 1) fuel
                (put-IsSlotSet states laws pointer_bits e next set p j k hand) hand' free
                (omega arith) in
            let (_, _, at) = holds in
            (
              next',
              step ∙ ap (λ s. shuffle e next_j (set_index e (j + 1)) s fuel) at ∙ ended,
              set',
              λ x. (
                λ m.
                    (Member-moved states laws pointer_bits e next set p j k hand q x holds).0
                      ((extended x).0 m),
                λ m.
                    (extended x).1
                      ((Member-moved states laws pointer_bits e next set p j k hand q x holds).1 m),
              ),
            )
      ]
