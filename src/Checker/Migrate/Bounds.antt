-- ===== src/Checker/Migrate/Bounds.antt =====
-- A set of less than a chunk's slots: its migration goes on behind the bucket.
use rumur.Prelude.{
  ℕ, zero, suc, ◌+◌, ◌-◌, ap₂, ℕ_discrete, ◌≤◌, ◌<◌, ◌≡◌, refl, sym, subst, ap, ◌∙◌, Bool-cases,
  inl, inr, true, false, leb, not, arith, some, none, le→leb,
}
use native.Mathlib.Nat.{one-le-pow, pow-le-pow_right}
use rumur.Prelude.Results.{ok, err, abort}
use rumur.Prelude.Runs.{Run, lift, done, require, ◌>>=◌}
use rumur.Checker.Slot.{slot_to_state, slot_empty, slot_tombstone, slot_is_tombstone, slot_is_empty}
use rumur.Checker.Seen.{States, Bucket, set_size, set_index, set_bucket}
use rumur.Checker.Migrate.{
  Buckets, shuffle, rehash, migrate_slot, migrate_slots, migrate_chunks, set_migrate,
}

>>=-eq-done :
    {A B : Type 0} (run : Run A) (rest : A → Run B) {final : B}
    → (run >>= rest) ≡ done final
    → (value : A) × (run ≡ done value) × (rest value ≡ done final)
>>=-eq-done abort rest returned = cc
>>=-eq-done (err thrown) rest returned = cc
>>=-eq-done (ok none) rest returned = cc
>>=-eq-done (ok (some value)) rest returned = (value, refl, returned)

set_bucket-other : (bucket : Bucket) (i slot j : ℕ) → i < j → set_bucket bucket i slot j ≡ bucket j
unfolding set_bucket
set_bucket-other bucket i slot j lt = ground arith

set_bucket-under : (bucket : Bucket) (i slot j : ℕ) → j < i → set_bucket bucket i slot j ≡ bucket j
unfolding set_bucket
set_bucket-under bucket i slot j lt = ground arith

set_bucket_self : (bucket : Bucket) (i slot : ℕ) → set_bucket bucket i slot i ≡ slot
unfolding set_bucket
set_bucket_self bucket i slot = ground arith

module _ (states : States) (pointer_bits e fuel : ℕ) where
  rehash-bucket :
      (bucket next : Bucket) (s : ℕ) (b : Buckets)
      → rehash states pointer_bits e fuel bucket next s ≡ done b
      → b.0 ≡ bucket
  unfolding rehash
  rehash-bucket bucket next s b returned =
      let (p, _, rest) = >>=-eq-done (lift (slot_to_state pointer_bits s)) _ returned in
      let index = set_index (e + 1) (states.state_hash p) in
      let (next', _, last) = >>=-eq-done (ok (shuffle (e + 1) next index s fuel)) _ rest in
      let same : done (bucket, next') ≡ done b = last in cc

  -- A slot's migration writes the tombstone to it, and nothing else of the old bucket.
  migrate_slot-bucket :
      (bucket next : Bucket) (i : ℕ) (b : Buckets)
      → migrate_slot states pointer_bits e fuel bucket next i ≡ done b
      → b.0 ≡ set_bucket bucket i slot_tombstone
  unfolding migrate_slot
  migrate_slot-bucket bucket next i b returned =
      let (_, _, rest) = >>=-eq-done (require (not (slot_is_tombstone (bucket i)))) _ returned in
      elim (Bool-cases (slot_is_empty (bucket i))) [
        | inl empty ↦
            let last : done (set_bucket bucket i slot_tombstone, next) ≡ done b =
              rw empty at rest in
            cc
        | inr held ↦
            rehash-bucket (set_bucket bucket i slot_tombstone) next (bucket i) b (rw held at rest)
      ]

  migrate_slots-behind :
      (bucket next : Bucket) (i rounds : ℕ) (b : Buckets)
      → migrate_slots states pointer_bits e fuel bucket next i rounds ≡ done b
      → (j : ℕ) → i + rounds ≤ j
      → b.0 j ≡ bucket j
  unfolding migrate_slots
  migrate_slots-behind bucket next i zero b returned j behind =
      let last : done (bucket, next) ≡ done b = returned in
      let same : bucket ≡ b.0 = cc in ap (λ c. c j) (sym same)
  migrate_slots-behind bucket next i (suc rounds) b returned j behind =
      let (mid, first, rest) =
        >>=-eq-done (migrate_slot states pointer_bits e fuel bucket next i) _ returned in
      migrate_slots-behind (mid.0) (mid.1) (i + 1) rounds b rest j (omega arith)
      ∙ ap (λ c. c j) (migrate_slot-bucket bucket next i mid first)
      ∙ set_bucket-other bucket i slot_tombstone j (omega arith)

  migrate_slots-append :
      (bucket next : Bucket) (i m n : ℕ) (b : Buckets)
      → migrate_slots states pointer_bits e fuel bucket next i m ≡ done b
      → migrate_slots states pointer_bits e fuel bucket next i (m + n)
        ≡ migrate_slots states pointer_bits e fuel (b.0) (b.1) (i + m) n
  unfolding migrate_slots
  migrate_slots-append bucket next i zero n b returned =
      let last : done (bucket, next) ≡ done b = returned in
      let same : (bucket, next) ≡ b = cc in
      subst
        (λ c.
          migrate_slots states pointer_bits e fuel bucket next i (0 + n)
          ≡ migrate_slots states pointer_bits e fuel (c.0) (c.1) (i + 0) n)
        same
        (ap₂ (λ k r. migrate_slots states pointer_bits e fuel bucket next k r) (omega arith)
          (omega arith))
  migrate_slots-append bucket next i (suc m) n b returned =
      let (mid, first, rest) =
        >>=-eq-done (migrate_slot states pointer_bits e fuel bucket next i) _ returned in
      let split : suc m + n ≡ suc (m + n) = omega arith in
      ap (λ r. migrate_slots states pointer_bits e fuel bucket next i r) split
      ∙ (rw first (
          migrate_slots-append (mid.0) (mid.1) (i + 1) m n b rest
          ∙ ap (λ k. migrate_slots states pointer_bits e fuel (b.0) (b.1) k n) (omega arith)))

  migrate_slot-empty :
      (bucket next : Bucket) (i : ℕ)
      → bucket i ≡ slot_empty
      → migrate_slot states pointer_bits e fuel bucket next i
        ≡ done (set_bucket bucket i slot_tombstone, next)
  unfolding migrate_slot
  migrate_slot-empty bucket next i empty = rw empty refl

  migrate_slots-empty :
      (bucket next : Bucket) (i rounds : ℕ)
      → ((j : ℕ) → i ≤ j → j < i + rounds → bucket j ≡ slot_empty)
      → (bucket' : Bucket) × (migrate_slots states pointer_bits e fuel bucket next i rounds
          ≡ done (bucket', next))
        × ((j : ℕ) → i ≤ j → j < i + rounds → bucket' j ≡ slot_tombstone)
        × ((j : ℕ) → j < i → bucket' j ≡ bucket j)
  unfolding migrate_slots
  migrate_slots-empty bucket next i zero empty =
      (bucket, refl, (λ j le lt. absurd (omega arith)), λ j lt. refl)
  migrate_slots-empty bucket next i (suc rounds) empty =
      let now = set_bucket bucket i slot_tombstone in
      let (bucket', rest, behind, before) = migrate_slots-empty now next (i + 1) rounds (λ j le lt.
        set_bucket-other bucket i slot_tombstone j (omega arith)
        ∙ empty j (omega arith) (omega arith)) in
      (
        bucket',
        (rw (migrate_slot-empty bucket next i (empty i (omega arith) (omega arith))) rest),
        (λ j le lt. elim (ℕ_discrete j i) [
          | yes same ↦
              ap bucket' same ∙ before i (omega arith) ∙ set_bucket_self bucket i slot_tombstone
          | no other ↦ behind j (omega arith) (omega arith)
        ]),
        λ j lt. before j (omega arith) ∙ set_bucket-under bucket i slot_tombstone j lt,
      )

  size-lt : e < 9 → set_size e < 512
  unfolding set_size
  size-lt small =
      omega (arith, pow-le-pow_right {n = 2} (omega arith) {i = e} {j = 8} (omega arith))

  size-pos : 0 < set_size e
  unfolding set_size
  size-pos = one-le-pow e 2 (omega arith)

  -- The second chunk starts beyond the bucket.
  two_chunks :
      (bucket next bucket' next' : Bucket) (rounds : ℕ)
      → e < 9
      → 2 ≤ rounds
      → migrate_slots states pointer_bits e fuel bucket next 0 512 ≡ done (bucket', next')
      → migrate_chunks states pointer_bits e fuel bucket next 0 rounds ≡ done (bucket', next')
  unfolding migrate_chunks
  two_chunks bucket next bucket' next' zero small enough first = absurd (omega arith)
  two_chunks bucket next bucket' next' (suc zero) small enough first = absurd (omega arith)
  two_chunks bucket next bucket' next' (suc (suc rounds)) small enough first =
      let starts : leb (set_size e) 0 ≡ false = ground (arith, size-pos) in
      let ends : leb (set_size e) 512 ≡ true = le→leb _ _ (omega (arith, size-lt small)) in
      rw (starts, first, ends) refl

  -- Where the words behind the bucket of a set with less than 512 slots are zero, up to the 512th, and
  -- the migration of the set's own slots returns, set_migrate goes on through the words behind the
  -- bucket and returns with a tombstone written to each of them; fuel for two chunks is enough.
  pub set_migrate-overruns :
      (bucket next own next' : Bucket)
      → e < 9
      → 2 ≤ fuel
      → migrate_slots states pointer_bits e fuel bucket next 0 (set_size e) ≡ done (own, next')
      → ((i : ℕ) → set_size e ≤ i → i < 512 → bucket i ≡ slot_empty)
      → (bucket' : Bucket) × (set_migrate states pointer_bits e fuel bucket next
          ≡ done (bucket', next'))
        × ((i : ℕ) → set_size e ≤ i → i < 512 → bucket' i ≡ slot_tombstone)
  unfolding set_migrate
  set_migrate-overruns bucket next own next' small enough returned zeros =
      let few = size-lt small in
      let (bucket', rest, behind, _) =
        migrate_slots-empty own next' (set_size e) (512 - set_size e) (λ j le lt.
          migrate_slots-behind bucket next 0 (set_size e) (own, next') returned j (omega arith)
          ∙ zeros j le (omega arith)) in
      (
        bucket',
        two_chunks bucket next bucket' next' fuel small enough (
            ap (λ n. migrate_slots states pointer_bits e fuel bucket next 0 n) (omega arith)
            ∙ migrate_slots-append bucket next 0 (set_size e) (512 - set_size e) (own, next')
                returned
            ∙ ap (λ i. migrate_slots states pointer_bits e fuel own next' i (512 - set_size e))
                (omega arith)
            ∙ rest),
        λ i le lt. behind i le (omega arith),
      )
