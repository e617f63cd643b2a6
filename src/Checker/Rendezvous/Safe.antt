-- ===== src/Checker/Rendezvous/Safe.antt =====
-- Calls at the rendezvous of rumur/resources/header.c in every state that calls of running threads lead to.
use rumur.Prelude.{
  ℕ, ◌≤◌, ◌<◌, ◌≡◌, ◌≢◌, ◌⊎◌, inl, inr, sym, ◌∙◌, subst, Option, dec_lt, ℕ_discrete, arith,
}
use rumur.Prelude.Results.{ok}
use rumur.Checker.Rendezvous.{Barrier, initial, start_secondary_threads}
use rumur.Checker.Rendezvous.Threads.{
  running, waiting, is_running, become, System, meet, opt_out, Step, meets, opts_out, Steps,
  none_yet, and_then, number, number-positive, number-some,
}
use rumur.Checker.Rendezvous.Invariant.{
  Counts, start-Counts, wake-Counts, some_pending, follow-Counts, leave-Counts, becomes_running,
}
use rumur.Checker.Rendezvous.Calls.{
  led, followed, departed, meet_last, meet_early, opt_out_last, opt_out_alone, opt_out_early,
}

pub ok-injective {ℓ} : {A : Type ℓ} {a b : A} → ok a ≡ ok b → a ≡ b
ok-injective e = cc

-- Another of the threads runs.
abbrev pub AnotherRuns : {Shared : Type 0} → ℕ → ℕ → System Shared → Type 0
AnotherRuns n t s = (u : ℕ) × (u < n) × (u ≢ t) × (s.thread u ≡ running)

abbrev pub OthersRest : {Shared : Type 0} → ℕ → ℕ → System Shared → Type 0
OthersRest n t s = (u : ℕ) → u < n → u ≢ t → s.thread u ≢ running

module _ {Shared : Type 0} (action : Option (Shared → Shared)) (n : ℕ) where
  module _ (s : System Shared) (counts : Counts n s.barrier s.thread) (t : ℕ) (known : t < n)
      (runs : s.thread t ≡ running) where
    others_rest : s.barrier.rendezvous_pending ≡ 1 → OthersRest n t s
    others_rest last u below other u_runs = absurd (
        omega (
          arith,
          counts.pending,
          becomes_running n counts t known runs waiting,
          subst (λ c. is_running c ≤ number is_running n (become s.thread t waiting))
              (rested (ℕ_discrete u t))
              (number-positive is_running (become s.thread t waiting) n u below),
        ))
      where
        rested : Dec (u ≡ t) → become s.thread t waiting u ≡ running
        rested d = ground arith

    pub another_runs : 1 < s.barrier.rendezvous_pending → AnotherRuns n t s
    another_runs early =
        let (u, below, u_runs) =
          number-some (become s.thread t waiting) n
            (omega (arith, counts.pending, becomes_running n counts t known runs waiting)) in
        (u, below, (λ e. ground arith), ground arith)

    pub pending-cases : (s.barrier.rendezvous_pending ≡ 1) ⊎ (1 < s.barrier.rendezvous_pending)
    pending-cases = elim (dec_lt 1 s.barrier.rendezvous_pending) [
      | yes early ↦ inr early
      | no last ↦ inl (omega (arith, some_pending n counts t known runs))
    ]

    pub meet-cases :
        (OthersRest n t s × (meet action t s ≡ ok (led action s t)))
        ⊎ (AnotherRuns n t s
            × (1 < s.barrier.rendezvous_pending)
            × (meet action t s ≡ ok (followed action s t)))
    meet-cases = elim pending-cases [
      | inl last ↦ inl (others_rest last, meet_last action s t last)
      | inr early ↦ inr (another_runs early, early, meet_early action s t early)
    ]

    pub opt_out-cases :
        (OthersRest n t s
          × (1 < s.barrier.running_count)
          × (opt_out action t s ≡ ok (led action s t)))
        ⊎ ((AnotherRuns n t s ⊎ (s.barrier.running_count ≡ 1))
            × (s.barrier.rendezvous_pending ≡ 1 → s.barrier.running_count ≡ 1)
            × (opt_out action t s ≡ ok (departed action s t)))
    opt_out-cases = elim pending-cases [
      | inl last ↦ elim (dec_lt 1 s.barrier.running_count) [
        | yes others ↦ inl (others_rest last, others, opt_out_last action s t last others)
        | no alone ↦
            inr (inr (one alone), (λ _. one alone), opt_out_alone action s t last (one alone))
      ]
      | inr early ↦ inr (
        inl (another_runs early),
        (λ e. absurd (omega arith)),
        opt_out_early action s t early some,
      )
    ]
      where
        some : 0 < s.barrier.running_count
        some =
            omega (arith, some_pending n counts t known runs, counts.participants, counts.pending)

        one : ¬ 1 < s.barrier.running_count → s.barrier.running_count ≡ 1
        one alone = omega (arith, some)

  -- Every call keeps the counts.
  pub Step-Counts :
      {s s' : System Shared}
      → Step action n s s'
      → Counts n s.barrier s.thread
      → Counts n s'.barrier s'.thread
  Step-Counts {s} (meets t known runs returned) counts = elim (meet-cases s counts t known runs) [
    | inl (rest, leads) ↦
        subst (λ (r : System Shared). Counts n r.barrier r.thread)
          (ok-injective (sym leads ∙ returned)) (wake-Counts n counts)
    | inr (another, early, follows) ↦
        subst (λ (r : System Shared). Counts n r.barrier r.thread)
          (ok-injective (sym follows ∙ returned)) (follow-Counts n counts t known runs early)
  ]
  Step-Counts {s} (opts_out t known runs returned) counts =
      elim (opt_out-cases s counts t known runs) [
        | inl (rest, others, leads) ↦
            subst (λ (r : System Shared). Counts n r.barrier r.thread)
              (ok-injective (sym leads ∙ returned)) (wake-Counts n counts)
        | inr (reason, alone, leaves) ↦
            subst (λ (r : System Shared). Counts n r.barrier r.thread)
              (ok-injective (sym leaves ∙ returned)) (leave-Counts n counts t known runs alone)
      ]

  pub Steps-Counts :
      {s : System Shared} {k : ℕ} {s' : System Shared}
      → Counts n s.barrier s.thread
      → Steps action n s k s'
      → Counts n s'.barrier s'.thread
  Steps-Counts counts none_yet = counts
  Steps-Counts counts (and_then steps step) = Step-Counts step (Steps-Counts counts steps)

  -- the threads as `start_secondary_threads` leaves them
  abbrev pub started : Barrier → Shared → System Shared
  started b shared = record { barrier = b; shared = shared; thread = λ j. running }

  module _ {b : Barrier} (returned : start_secondary_threads n initial ≡ ok b) {shared : Shared}
      {k : ℕ} {s : System Shared} (steps : Steps action n (started b shared) k s) where
    pub reached-Counts : Counts n s.barrier s.thread
    reached-Counts = Steps-Counts (start-Counts n returned) steps

    -- In a state that calls of running threads lead to, no running thread's call aborts. rendezvous runs
    -- the action and wakes the sleepers exactly where no other thread runs, and else puts the caller to
    -- sleep; an attempt of rendezvous_opt_out does so too where no other thread runs but one
    -- participates, and else the caller leaves.
    pub calls_lem :
        (t : ℕ)
        → t < n
        → s.thread t ≡ running
        → ((OthersRest n t s × (meet action t s ≡ ok (led action s t)))
            ⊎ (AnotherRuns n t s × (meet action t s ≡ ok (followed action s t))))
          × ((OthersRest n t s
                × (1 < s.barrier.running_count)
                × (opt_out action t s ≡ ok (led action s t)))
              ⊎ ((AnotherRuns n t s ⊎ (s.barrier.running_count ≡ 1))
                  × (opt_out action t s ≡ ok (departed action s t))))
    calls_lem t known runs = (
      elim (meet-cases s reached-Counts t known runs) [
        | inl led ↦ inl led
        | inr (another, early, follows) ↦ inr (another, follows)
      ],
      elim (opt_out-cases s reached-Counts t known runs) [
        | inl (rest, others, leads) ↦ inl (rest, others, leads)
        | inr (reason, alone, leaves) ↦ inr (reason, leaves)
      ],
    )
