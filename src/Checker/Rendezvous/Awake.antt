-- ===== src/Checker/Rendezvous/Awake.antt =====
-- How long a thread sleeps at the rendezvous of rumur/resources/header.c.
use rumur.Prelude.{
  ℕ, suc, ◌+◌, ◌≤◌, ◌<◌, ◌≡◌, ◌≢◌, inl, inr, sym, ◌∙◌, ap, subst, Option, dec_lt, arith,
}
use rumur.Prelude.Results.{ok}
use rumur.Checker.Rendezvous.{Barrier, initial, start_secondary_threads}
use rumur.Checker.Rendezvous.Threads.{
  Thread, running, waiting, opted_out, is_running, is_waiting, wake, System, Step, meets, opts_out,
  Steps, number, number-positive, number-some,
}
use rumur.Checker.Rendezvous.Invariant.{Counts, some_pending}
use rumur.Checker.Rendezvous.Safe.{
  ok-injective, meet-cases, opt_out-cases, Step-Counts, started, reached-Counts,
}

wake-ne-waiting : (c : Thread) → wake c ≢ waiting
wake-ne-waiting running e = cc
wake-ne-waiting waiting e = cc
wake-ne-waiting opted_out e = cc

module _ {Shared : Type 0} (action : Option (Shared → Shared)) (n : ℕ) where
  -- Steps during which a thread sleeps.
  pub data Waits (t : ℕ) (s : System Shared) : ℕ → System Shared → Type 0 where
    waits : s.thread t ≡ waiting → Waits t s 0 s
    on_and_on :
        {k : ℕ} {s' s'' : System Shared}
        → Waits t s k s'
        → Step action n s' s''
        → s''.thread t ≡ waiting
        → Waits t s (suc k) s''

  -- A step that wakes no thread takes one off the counter.
  Step-pending :
      {s s' : System Shared} (t : ℕ)
      → Counts n s.barrier s.thread
      → Step action n s s'
      → s'.thread t ≡ waiting
      → s'.barrier.rendezvous_pending + 1 ≡ s.barrier.rendezvous_pending
  Step-pending {s} {s'} t counts (meets u known runs returned) sleeps =
      elim (meet-cases action n s counts u known runs) [
        | inl (rest, leads) ↦ absurd (
            wake-ne-waiting (s.thread t) (
              ap (λ (r : System Shared). r.thread t) (ok-injective (sym leads ∙ returned))
              ∙ sleeps))
        | inr (another, early, follows) ↦
            subst
              (λ (r : System Shared).
                r.barrier.rendezvous_pending + 1 ≡ s.barrier.rendezvous_pending)
              (ok-injective (sym follows ∙ returned)) (omega arith)
      ]
  Step-pending {s} {s'} t counts (opts_out u known runs returned) sleeps =
      elim (opt_out-cases action n s counts u known runs) [
        | inl (rest, others, leads) ↦ absurd (
            wake-ne-waiting (s.thread t) (
              ap (λ (r : System Shared). r.thread t) (ok-injective (sym leads ∙ returned))
              ∙ sleeps))
        | inr (reason, alone, leaves) ↦
            subst
              (λ (r : System Shared).
                r.barrier.rendezvous_pending + 1 ≡ s.barrier.rendezvous_pending)
              (ok-injective (sym leaves ∙ returned))
              (omega (arith, some_pending n counts u known runs))
      ]

  Waits-pending :
      {t : ℕ} {s : System Shared} {k : ℕ} {s' : System Shared}
      → Counts n s.barrier s.thread
      → Waits t s k s'
      → Counts n s'.barrier s'.thread
        × (s'.thread t ≡ waiting)
        × (k + s'.barrier.rendezvous_pending ≡ s.barrier.rendezvous_pending)
  Waits-pending counts (waits sleeps) = (counts, sleeps, omega arith)
  Waits-pending {t} counts (on_and_on before step sleeps) =
      let (kept, _, spent) = Waits-pending counts before in
      (Step-Counts action n step kept, sleeps, omega (arith, Step-pending t kept step sleeps))

  some_awake :
      (s : System Shared) (t : ℕ)
      → t < n
      → Counts n s.barrier s.thread
      → s.thread t ≡ waiting
      → 0 < s.barrier.rendezvous_pending
  some_awake s t known counts sleeps = elim (dec_lt 0 s.barrier.rendezvous_pending) [
    | yes some ↦ some
    | no no_one ↦ absurd (
        omega (
          arith,
          counts.awake (omega arith),
          counts.participants,
          subst (λ c. is_waiting c ≤ number is_waiting n s.thread) sleeps
              (number-positive is_waiting s.thread n t known),
        ))
  ]

  -- In a state that calls of running threads lead to: a thread that sleeps there sleeps through fewer
  -- calls than threads run in that state, and while it sleeps some thread runs.
  pub Waits-bound :
      {b : Barrier} {shared : Shared} {k j : ℕ} {s s' : System Shared} (t : ℕ)
      → start_secondary_threads n initial ≡ ok b
      → Steps action n (started action n b shared) k s
      → t < n
      → Waits t s j s'
      → (j < number is_running n s.thread) × ((u : ℕ) × (u < n) × (s'.thread u ≡ running))
  Waits-bound {s} {s'} t returned steps known sleep =
      let counts = reached-Counts action n returned steps in
      let (counts', sleeps, spent) = Waits-pending counts sleep in
      let some = some_awake s' t known counts' sleeps in
      (omega (arith, counts.pending), number-some s'.thread n (omega (arith, counts'.pending)))
