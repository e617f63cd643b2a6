-- ===== src/Checker/Migrate.antt =====
-- The migration of the set of seen states to the next one: the loops of `set_migrate` of
-- rumur/resources/header.c, run by one thread. A bucket is the memory from its first slot on, so that an index
-- beyond its last slot is that of a word behind it.
pub mod Bounds
pub mod Put
pub mod Shuffle
use rumur.Prelude.{
  ℕ, zero, suc, ◌+◌, ◌-◌, ◌*◌, ◌/◌, ◌^◌, Bool, true, false, if◌then◌else◌, ltb, leb, not, Option,
  some, none,
}
use rumur.Prelude.Results.{ok}
use rumur.Prelude.Runs.{Run, done, require, lift, ◌>>=◌, ◌>>◌}
use rumur.Checker.Slot.{slot_is_empty, slot_is_tombstone, slot_tombstone, slot_to_state}
use rumur.Checker.Seen.{States, Bucket, set_size, set_index, set_bucket}

-- `4096 / sizeof(local_seen->bucket[0])`
abbrev pub chunk_size : ℕ
chunk_size = 4096 / 8

-- `for (; !slot_is_empty(s); j = set_index(next, j + 1))`, on fuel: it does not end where the next set
-- is full.
unfoldable pub shuffle : ℕ → Bucket → ℕ → ℕ → ℕ → Option Bucket
shuffle size_exponent next j s zero = if slot_is_empty s then some next else none
shuffle size_exponent next j s (suc fuel) =
    let rest =
      shuffle size_exponent (set_bucket next j s) (set_index size_exponent (j + 1)) (next j) fuel in
    if slot_is_empty s then some next else rest

-- the bucket of the old set and that of the next one
abbrev pub Buckets : Type 0
Buckets = Bucket × Bucket

module _ (states : States) (pointer_bits size_exponent fuel : ℕ) where
  -- a slot that holds a state, rehashed and inserted
  unfoldable pub rehash : Bucket → Bucket → ℕ → Run Buckets
  rehash bucket next s = do
    p ← lift (slot_to_state pointer_bits s)
    let index = set_index (size_exponent + 1) (states.state_hash p)
    next' ← ok (shuffle (size_exponent + 1) next index s fuel)
    done (bucket, next')

  -- the body of the loop over the slots of a chunk
  unfoldable pub migrate_slot : Bucket → Bucket → ℕ → Run Buckets
  migrate_slot bucket next i = do
    let s = bucket i
    let bucket' = set_bucket bucket i slot_tombstone
    require (not (slot_is_tombstone s))
    if slot_is_empty s then done (bucket', next) else rehash bucket' next s

  -- `for (size_t i = start; i < end; i++)`, with the number of rounds that are left
  unfoldable pub migrate_slots : Bucket → Bucket → ℕ → ℕ → Run Buckets
  migrate_slots bucket next i zero = done (bucket, next)
  migrate_slots bucket next i (suc rounds) =
      migrate_slot bucket next i >>= λ b. migrate_slots (b.0) (b.1) (i + 1) rounds

  -- the loop over the chunks, on fuel
  unfoldable pub migrate_chunks : Bucket → Bucket → ℕ → ℕ → Run Buckets
  migrate_chunks bucket next chunk zero = ok none
  migrate_chunks bucket next chunk (suc rounds) =
      let start = chunk * chunk_size in
      if leb (set_size size_exponent) start
      then done (bucket, next)
      else migrate_slots bucket next start chunk_size >>= λ b.
          migrate_chunks (b.0) (b.1) (chunk + 1) rounds

  unfoldable pub set_migrate : Bucket → Bucket → Run Buckets
  set_migrate bucket next = migrate_chunks bucket next 0 fuel
