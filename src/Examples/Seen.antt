-- ===== src/Examples/Seen.antt =====
-- A set of four slots, for states that are equal where their addresses lie in one block of 64 bytes.
use native.Mathlib.Omega.{arith}
use rumur.Prelude.{
  ℕ, zero, suc, ◌≤◌, if◌then◌else◌, ◌*◌, ◌/◌, ◌^◌, ◌<◌, ◌≡◌, ◌≢◌, refl, true, false, ◌==◌, ◌⊎◌,
  some, none,
}
use rumur.Prelude.Results.{ok}
use rumur.Prelude.Runs.{done}
use rumur.Checker.Slot.{slot_empty, slot_tombstone, slot_to_state}
use rumur.Checker.Slot.Laws.{IsPointer}
use rumur.Checker.Seen.{
  States, IsStates, Bucket, set_bucket, set_index, set_size, set_find, insert_probe, added, present,
  full,
}
use rumur.Checker.Seen.Found.{Holds, slot_of, set_find-cases}
use rumur.Checker.Seen.Kept.{IsSlotSet, grown, grown-IsSlotSet}
use rumur.Checker.Seen.Insert.{Member, Extends, no_slots, no_slots-IsSlotSet, insert_probe-cases}
use rumur.Checker.Seen.Inserted.{held-not_empty}
use rumur.Checker.Migrate.{set_migrate, migrate_slots, migrate_slot, rehash, shuffle}
use rumur.Checker.Migrate.Put.{InHand}
use rumur.Checker.Migrate.Shuffle.{shuffle-Extends}
use rumur.Checker.Migrate.Bounds.{set_migrate-overruns}

abbrev blocks : States
blocks = record { state_eq = λ s n. s / 64 == n / 64; state_hash = λ s. s / 64 * 3 }

blocks-IsStates : IsStates blocks
blocks-IsStates = record {
  symmetric = λ s n e. ground arith;
  transitive = λ s n p e f. ground arith;
  same_hash = λ s n e. ground arith;
}

first-IsPointer : IsPointer 48 130
first-IsPointer = (omega arith, omega arith, omega arith, omega arith, omega arith)

second-IsPointer : IsPointer 48 132
second-IsPointer = (omega arith, omega arith, omega arith, omega arith, omega arith)

insert_probe-cases_example :
    ((bucket' : Bucket) × (insert_probe blocks 48 2 (no_slots blocks blocks-IsStates 48 2) 130
        ≡ ok (added bucket'))
      × ¬ Member blocks blocks-IsStates 48 2 (no_slots blocks blocks-IsStates 48 2) 130
      × IsSlotSet blocks blocks-IsStates 48 2 bucket'
      × Extends blocks blocks-IsStates 48 2 (no_slots blocks blocks-IsStates 48 2) 130 bucket')
    ⊎ (((insert_probe blocks 48 2 (no_slots blocks blocks-IsStates 48 2) 130 ≡ ok present)
          × Member blocks blocks-IsStates 48 2 (no_slots blocks blocks-IsStates 48 2) 130)
        ⊎ ((insert_probe blocks 48 2 (no_slots blocks blocks-IsStates 48 2) 130 ≡ ok full)
            × ((i : ℕ) → i < 2 ^ 2 → no_slots blocks blocks-IsStates 48 2 i ≢ 0)))
insert_probe-cases_example =
    insert_probe-cases blocks blocks-IsStates 48 2 (no_slots blocks blocks-IsStates 48 2) 130
      (no_slots-IsSlotSet blocks blocks-IsStates 48 2) first-IsPointer

-- the set with the first state
abbrev one_state : Bucket
one_state =
    grown blocks blocks-IsStates 48 2 (no_slots blocks blocks-IsStates 48 2)
      (no_slots-IsSlotSet blocks blocks-IsStates 48 2) 130 first-IsPointer 0 (omega arith) refl
      (λ j lt. absurd (omega arith))

one_state-IsSlotSet : IsSlotSet blocks blocks-IsStates 48 2 one_state
one_state-IsSlotSet =
    grown-IsSlotSet blocks blocks-IsStates 48 2 (no_slots blocks blocks-IsStates 48 2)
      (no_slots-IsSlotSet blocks blocks-IsStates 48 2) 130 first-IsPointer 0 (omega arith) refl
      (λ j lt. absurd (omega arith))

set_find-cases_example :
    ((n : ℕ) × (set_find blocks 48 2 one_state 132 ≡ ok (some n))
      × (blocks.state_eq 132 n ≡ true)
      × ((i : ℕ) × Holds blocks blocks-IsStates 48 2 one_state i n))
    ⊎ ((set_find blocks 48 2 one_state 132 ≡ ok none)
        × ((i p : ℕ)
            → Holds blocks blocks-IsStates 48 2 one_state i p
            → blocks.state_eq 132 p ≡ false))
set_find-cases_example =
    set_find-cases blocks blocks-IsStates 48 2 one_state (one_state-IsSlotSet.stored) 132
      second-IsPointer (one_state-IsSlotSet.reachable)

-- four slots that hold the first state, as pointers without bits to spare, before and after
abbrev small_set : Bucket
small_set i = if i == 2 then 130 else 0

abbrev empty_set : Bucket
empty_set i = 0

abbrev migrated : ℕ → Bucket → Bucket
migrated zero bucket = bucket
migrated (suc n) bucket = set_bucket (migrated n bucket) n slot_tombstone

own_slots :
    migrate_slots blocks 64 2 10 small_set empty_set 0 (set_size 2)
    ≡ done (migrated 4 small_set, set_bucket empty_set 6 130)
unfolding migrate_slots migrate_slot rehash shuffle set_index set_size slot_to_state set_bucket
own_slots = refl

set_size-four : set_size 2 ≡ 4
unfolding set_size
set_size-four = refl

behind_small_set : (i : ℕ) → set_size 2 ≤ i → i < 512 → small_set i ≡ slot_empty
behind_small_set i le lt = let four = set_size-four in ground arith

set_migrate-overruns_example :
    (bucket' : Bucket) × (set_migrate blocks 64 2 10 small_set empty_set
      ≡ done (bucket', set_bucket empty_set 6 130))
    × ((i : ℕ) → set_size 2 ≤ i → i < 512 → bucket' i ≡ slot_tombstone)
set_migrate-overruns_example =
    set_migrate-overruns blocks 64 2 10 small_set empty_set (migrated 4 small_set)
      (set_bucket empty_set 6 130) (omega arith) (omega arith) own_slots behind_small_set

-- the place of the first state in a set of eight slots
in_hand : InHand blocks blocks-IsStates 48 3 (no_slots blocks blocks-IsStates 48 3) 130 6 0
unfolding set_index set_size
in_hand = record {
  valid = first-IsPointer;
  round = omega arith;
  place = refl;
  full_before = λ i less. absurd (omega arith);
  fresh = λ i q holds. absurd (
      held-not_empty blocks blocks-IsStates 48 3 (no_slots blocks blocks-IsStates 48 3) i q holds
        refl);
}

shuffle-Extends_example :
    (next' : Bucket) × (shuffle 3
        (no_slots blocks blocks-IsStates 48 3)
        6
        (slot_of blocks blocks-IsStates 48 3 130)
        5
      ≡ some next')
    × IsSlotSet blocks blocks-IsStates 48 3 next'
    × Extends blocks blocks-IsStates 48 3 (no_slots blocks blocks-IsStates 48 3) 130 next'
shuffle-Extends_example =
    shuffle-Extends blocks blocks-IsStates 48 3 (no_slots blocks blocks-IsStates 48 3) 130 6 0 0 5
      (no_slots-IsSlotSet blocks blocks-IsStates 48 3) in_hand refl (omega arith)
