-- ===== src/Checker/Rendezvous/Spurious.antt =====
-- `pthread_cond_wait` may return though nobody has signalled; the rendezvous of rumur/resources/header.c calls it
-- once, outside a loop that tests what it waits for.
use rumur.Prelude.{ℕ, ◌<◌, ◌≡◌, ◌≢◌, inl, inr, Option, arith}
use rumur.Prelude.Results.{ok}
use rumur.Checker.Rendezvous.{Barrier, initial, start_secondary_threads}
use rumur.Checker.Rendezvous.Threads.{running, waiting, become, System, meet, Steps}
use rumur.Checker.Rendezvous.Calls.{led, meet_last}
use rumur.Checker.Rendezvous.Safe.{started, reached-Counts, pending-cases, another_runs, OthersRest}

-- The system after a spurious wakeup.
abbrev pub woken : {Shared : Type 0} → ℕ → System Shared → System Shared
woken t s = record s { thread = become s.thread t running }

module _ {Shared : Type 0} (action : Option (Shared → Shared)) (n : ℕ) where
  -- In a state that calls of running threads lead to, in which a thread sleeps and another is the only
  -- one that runs: should the sleeper wake by itself, the call of the other runs the action as the
  -- leader's although the sleeper runs too.
  pub spurious_leader :
      {b : Barrier} {shared : Shared} {k : ℕ} {s : System Shared} (t u : ℕ)
      → start_secondary_threads n initial ≡ ok b
      → Steps action n (started action n b shared) k s
      → u < n
      → s.thread t ≡ waiting
      → s.thread u ≡ running
      → OthersRest n u s
      → ((woken t s).thread t ≡ running)
        × (t ≢ u)
        × (meet action u (woken t s) ≡ ok (led action (woken t s) u))
  spurious_leader {s = s} t u returned steps known sleeps runs rest =
      elim (pending-cases action n s (reached-Counts action n returned steps) u known runs) [
        | inl last ↦ (ground arith, (λ e. ground arith), meet_last action (woken t s) u last)
        | inr early ↦
            let (v, below, other, v_runs) =
              another_runs action n s (reached-Counts action n returned steps) u known runs early in
            absurd (rest v below other v_runs)
      ]
