-- ===== src/Checker/Rendezvous.antt =====
-- The rendezvous of threads of rumur/resources/header.c. A thread holds `rendezvous_lock` from its arrival
-- to its departure, so that each call is one step; `pthread_cond_wait` gives the lock up and sleeps.
pub mod Threads
pub mod Invariant
pub mod Calls
pub mod Safe
pub mod Awake
pub mod Spurious
use rumur.Prelude.{ℕ, ◌-◌, Bool, true, false, ltb, ◌==◌, ◌&&◌, Option, some, none}
use rumur.Prelude.Results.{Result, ok, abort, assert, ◌>>=◌, ◌>>◌}

pub record Barrier : Type 0 where
  pub running_count : ℕ
  pub rendezvous_pending : ℕ

abbrev pub initial : Barrier
initial = record { running_count = 1; rendezvous_pending = 1 }

-- the counters, before the loop that creates the threads
unfoldable pub start_secondary_threads : ℕ → Barrier → Result Barrier
start_secondary_threads threads b =
    assert (b.running_count == 1)
    >> (assert (b.rendezvous_pending == 1)
        >> ok (record { running_count = threads; rendezvous_pending = threads }))

-- Whether the caller is the leader.
unfoldable pub rendezvous_arrive : Barrier → Result (Bool × Barrier)
rendezvous_arrive b =
    assert (ltb 0 b.rendezvous_pending)
    >> ok
        (b.rendezvous_pending - 1 == 0, record b { rendezvous_pending = b.rendezvous_pending - 1 })

-- What the caller does to the condition variable.
pub data Signal : Type 0 where
  broadcast wait : Signal

-- How an attempt to opt out ends.
pub data Attempt : Type 0 where
  retry left : Attempt

-- The action changes data that the threads share.
module _ {Shared : Type 0} (action : Option (Shared → Shared)) where
  unfoldable pub act : Shared → Shared
  act shared = elim action [ none ↦ shared | some f ↦ f shared ]

  unfoldable pub rendezvous_depart : Bool → Barrier → Shared → Result (Signal × Barrier × Shared)
  rendezvous_depart true b shared =
      assert (b.rendezvous_pending == 0)
      >> ok (broadcast, record b { rendezvous_pending = b.running_count }, act shared)
  rendezvous_depart false b shared = ok (wait, b, shared)

  unfoldable pub rendezvous : Barrier → Shared → Result (Signal × Barrier × Shared)
  rendezvous b shared = do (leader, b') ← rendezvous_arrive b; rendezvous_depart leader b' shared

  abbrev leave_or_retry : Bool → Barrier → Shared → Result (Attempt × Barrier × Shared)
  leave_or_retry true b shared = do
    (_, b', shared') ← rendezvous_depart true b shared
    ok (retry, b', shared')
  leave_or_retry false b shared =
      assert (ltb 0 b.running_count)
      >> ok (left, record b { running_count = b.running_count - 1 }, shared)

  -- `rendezvous_opt_out` from one passage of its label to the next
  unfoldable pub rendezvous_opt_out : Barrier → Shared → Result (Attempt × Barrier × Shared)
  rendezvous_opt_out b shared = do
    (leader, b') ← rendezvous_arrive b
    leave_or_retry (leader && ltb 1 b'.running_count) b' shared
