-- ===== src/Checker/Seen.antt =====
-- The set of seen states of rumur/resources/header.c, as one thread sees it between two expansions:
-- `set_find`, and the probing loop of `set_insert`. Sums of an index and a number of attempts stay below
-- twice the set's size.
pub mod Found
pub mod Inserted
pub mod Kept
pub mod Insert
use Prim.Native.Nat.{bit_and}
use rumur.Prelude.{
  ℕ, zero, suc, ◌+◌, ◌-◌, ◌*◌, ◌/◌, ◌^◌, ◌≡◌, Bool, true, false, if◌then◌else◌, ltb, ◌==◌, ◌&&◌,
  not, Option, some, none,
}
use rumur.Prelude.Results.{Result, ok, err, abort, assert, ◌>>=◌, ◌>>◌}
use rumur.Checker.Slot.{slot_is_empty, slot_is_tombstone, slot_to_state, state_to_slot, slot_neq}

-- `state_eq` and `state_hash`, on pointers to states
pub record States : Type 0 where
  pub state_eq : ℕ → ℕ → Bool
  pub state_hash : ℕ → ℕ

-- Equality of the states' data is an equivalence, and the hash is one of the data.
pub record IsStates (states : States) : Type 0 where
  pub symmetric : (s n : ℕ) → states.state_eq s n ≡ true → states.state_eq n s ≡ true
  pub transitive :
      (s n p : ℕ)
      → states.state_eq s n ≡ true
      → states.state_eq n p ≡ true
      → states.state_eq s p ≡ true
  pub same_hash : (s n : ℕ) → states.state_eq s n ≡ true → states.state_hash s ≡ states.state_hash n

-- `set->bucket`, by index
abbrev pub Bucket : Type 0
Bucket = ℕ → ℕ

unfoldable pub set_size : ℕ → ℕ
set_size size_exponent = 2 ^ size_exponent

unfoldable pub set_index : ℕ → ℕ → ℕ
unfolding set_size
set_index size_exponent index = bit_and index (set_size size_exponent - 1)

-- the bucket after the compare and exchange that succeeds
unfoldable pub set_bucket : Bucket → ℕ → ℕ → Bucket
set_bucket bucket i slot j = if j == i then slot else bucket j

-- What the probing loop of `set_insert` ends with: the state is added, it is in the set, or the set is full.
pub data Probe : Type 0 where
  added : Bucket → Probe
  present full : Probe

module _ (states : States) (pointer_bits size_exponent : ℕ) where
  -- `for (; attempts < set_size(local_seen); ++attempts)`, with the number of rounds that are left
  unfoldable pub find_from : Bucket → ℕ → ℕ → ℕ → ℕ → ℕ → Result (Option ℕ)
  find_from bucket s needle index attempts zero = ok none
  find_from bucket s needle index attempts (suc rounds) =
      let slot = bucket (set_index size_exponent (index + attempts)) in
      let next = find_from bucket s needle index (attempts + 1) rounds in
      assert (not (slot_is_tombstone slot))
      >> (if slot_is_empty slot
          then ok none
          else if slot_neq pointer_bits needle slot
          then next
          else (do
            n ← slot_to_state pointer_bits slot
            assert (not (n == 0))
            if states.state_eq s n then ok (some n) else next))

  unfoldable pub set_find : Bucket → ℕ → Result (Option ℕ)
  set_find bucket s = do
    let hash = states.state_hash s
    needle ← state_to_slot pointer_bits s hash
    find_from bucket s needle (set_index size_exponent hash) 0 (set_size size_exponent)

  -- the loop of `set_insert`, on a set that no thread migrates: a tombstone, at which the code joins a
  -- migration, aborts
  unfoldable pub insert_from : Bucket → ℕ → ℕ → ℕ → ℕ → ℕ → Result Probe
  insert_from bucket s slot index attempts zero = ok full
  insert_from bucket s slot index attempts (suc rounds) =
      let i = set_index size_exponent (index + attempts) in
      let c = bucket i in
      let next = insert_from bucket s slot index (attempts + 1) rounds in
      if slot_is_empty c
      then ok (added (set_bucket bucket i slot))
      else assert (not (slot_is_tombstone c))
        >> (if slot_neq pointer_bits slot c then next else (do
          n ← slot_to_state pointer_bits c
          if states.state_eq s n then ok present else next))

  unfoldable pub insert_probe : Bucket → ℕ → Result Probe
  insert_probe bucket s = do
    let hash = states.state_hash s
    slot ← state_to_slot pointer_bits s hash
    insert_from bucket s slot (set_index size_exponent hash) 0 (set_size size_exponent)
