-- ===== src/Checker/Rendezvous/Invariant.antt =====
-- What holds of the counters of rumur/resources/header.c's rendezvous and the threads, between two calls.
use rumur.Prelude.{ℕ, ◌+◌, ◌-◌, ◌≤◌, ◌<◌, ◌≡◌, subst, arith}
use rumur.Prelude.Results.{ok}
use rumur.Checker.Rendezvous.{Barrier, initial, start_secondary_threads}
use rumur.Checker.Rendezvous.Threads.{
  Thread, running, waiting, opted_out, is_running, is_waiting, wake, become, number, number-become,
  number-positive, number-wake, number_waiting-wake, number_all, number_none,
}

-- The one counter counts the threads that run, the other those that have not opted out; some
-- thread runs, or all have opted out.
pub record Counts (n : ℕ) (b : Barrier) (thread : ℕ → Thread) : Type 0 where
  pub pending : b.rendezvous_pending ≡ number is_running n thread
  pub participants : b.running_count ≡ number is_running n thread + number is_waiting n thread
  pub awake : b.rendezvous_pending ≡ 0 → b.running_count ≡ 0

-- The threads as they are started.
pub start-Counts :
    (n : ℕ) {b : Barrier} → start_secondary_threads n initial ≡ ok b → Counts n b (λ j. running)
unfolding start_secondary_threads
start-Counts n returned = record {
  pending = ground (arith, number_all n);
  participants = ground (arith, number_all n, number_none n);
  awake = λ e. ground arith;
}

module _ (n : ℕ) where
  module _ {b : Barrier} {thread : ℕ → Thread} (counts : Counts n b thread) where
    pub wake-Counts :
        Counts n
          (record { running_count = b.running_count; rendezvous_pending = b.running_count })
          (λ j. wake (thread j))
    wake-Counts = record {
      pending = omega (arith, number-wake thread n, counts.participants);
      participants =
          omega (arith, number-wake thread n, number_waiting-wake thread n, counts.participants);
      awake = λ e. e;
    }

    module _ (t : ℕ) (known : t < n) (runs : thread t ≡ running) where
      one_runs : 1 ≤ number is_running n thread
      one_runs =
          subst (λ c. is_running c ≤ number is_running n thread) runs
            (number-positive is_running thread n t known)

      pub becomes_running :
          (to : Thread)
          → number is_running n (become thread t to) + 1
            ≡ number is_running n thread + is_running to
      becomes_running to =
          subst
            (λ c.
              number is_running n (become thread t to) + is_running c
              ≡ number is_running n thread + is_running to)
            runs (number-become is_running thread t to n known)

      becomes_waiting :
          (to : Thread)
          → number is_waiting n (become thread t to) ≡ number is_waiting n thread + is_waiting to
      becomes_waiting to = omega (
        arith,
        subst
            (λ c.
              number is_waiting n (become thread t to) + is_waiting c
              ≡ number is_waiting n thread + is_waiting to)
            runs (number-become is_waiting thread t to n known),
      )

      pub some_pending : 0 < b.rendezvous_pending
      some_pending = omega (arith, counts.pending, one_runs)

      pub follow-Counts :
          1 < b.rendezvous_pending
          → Counts n
              (record b { rendezvous_pending = b.rendezvous_pending - 1 })
              (become thread t waiting)
      follow-Counts more = record {
        pending = omega (arith, becomes_running waiting, counts.pending, one_runs);
        participants = omega (
          arith,
          becomes_running waiting,
          becomes_waiting waiting,
          counts.participants,
          one_runs,
        );
        awake = λ e. absurd (omega arith);
      }

      pub leave-Counts :
          (b.rendezvous_pending ≡ 1 → b.running_count ≡ 1)
          → Counts n
              (record {
                running_count = b.running_count - 1;
                rendezvous_pending = b.rendezvous_pending - 1;
              })
              (become thread t opted_out)
      leave-Counts alone = record {
        pending = omega (arith, becomes_running opted_out, counts.pending, one_runs);
        participants = omega (
          arith,
          becomes_running opted_out,
          becomes_waiting opted_out,
          counts.participants,
          one_runs,
        );
        awake = λ e. omega (arith, alone (omega (arith, some_pending)));
      }
