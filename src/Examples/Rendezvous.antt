-- ===== src/Examples/Rendezvous.antt =====
-- Three threads that meet at a rendezvous, which adds one to a number.
use native.Mathlib.Omega.{arith}
use rumur.Prelude.{ℕ, suc, ◌<◌, ◌≡◌, ◌≢◌, ◌⊎◌, refl, Option, some}
use rumur.Prelude.Results.{ok}
use rumur.Checker.Rendezvous.{Barrier, initial, start_secondary_threads}
use rumur.Checker.Rendezvous.Threads.{
  running, System, meet, opt_out, Step, meets, Steps, none_yet, and_then, number, is_running,
}
use rumur.Checker.Rendezvous.Calls.{led, followed, departed, meet_early}
use rumur.Checker.Rendezvous.Safe.{OthersRest, AnotherRuns, started, calls_lem}
use rumur.Checker.Rendezvous.Awake.{waits, on_and_on, Waits-bound}
use rumur.Checker.Rendezvous.Spurious.{woken, spurious_leader}

abbrev add_one : Option (ℕ → ℕ)
add_one = some (λ d. suc d)

abbrev three : Barrier
three = record { running_count = 3; rendezvous_pending = 3 }

three_started : start_secondary_threads 3 initial ≡ ok three
unfolding start_secondary_threads
three_started = refl

abbrev all_run : System ℕ
all_run = started add_one 3 three 7

-- thread 0 sleeps
abbrev one_sleeps : System ℕ
one_sleeps = followed add_one all_run 0

-- threads 0 and 1 sleep
abbrev two_sleep : System ℕ
two_sleep = followed add_one one_sleeps 1

first-Step : Step add_one 3 all_run one_sleeps
first-Step = meets 0 (omega arith) refl (meet_early add_one all_run 0 (omega arith))

second-Step : Step add_one 3 one_sleeps two_sleep
second-Step = meets 1 (omega arith) refl (meet_early add_one one_sleeps 1 (omega arith))

two-Steps : Steps add_one 3 all_run 2 two_sleep
two-Steps = and_then (and_then none_yet first-Step) second-Step

last_runs : OthersRest 3 2 two_sleep
last_runs u below other runs = ground arith

calls_lem_example :
    ((OthersRest 3 2 two_sleep × (meet add_one 2 two_sleep ≡ ok (led add_one two_sleep 2)))
      ⊎ (AnotherRuns 3 2 two_sleep
          × (meet add_one 2 two_sleep ≡ ok (followed add_one two_sleep 2))))
    × ((OthersRest 3 2 two_sleep
          × (1 < 3)
          × (opt_out add_one 2 two_sleep ≡ ok (led add_one two_sleep 2)))
        ⊎ ((AnotherRuns 3 2 two_sleep ⊎ (◌≡◌ {A = ℕ} 3 1))
            × (opt_out add_one 2 two_sleep ≡ ok (departed add_one two_sleep 2))))
calls_lem_example = calls_lem add_one 3 three_started two-Steps 2 (omega arith) refl

Waits-bound_example :
    (1 < number is_running 3 one_sleeps.thread)
    × ((u : ℕ) × (u < 3) × (two_sleep.thread u ≡ running))
Waits-bound_example =
    Waits-bound add_one 3 0 three_started (and_then none_yet first-Step) (omega arith)
      (on_and_on (waits refl) second-Step refl)

spurious_leader_example :
    ((woken 0 two_sleep).thread 0 ≡ running)
    × (◌≢◌ {A = ℕ} 0 2)
    × (meet add_one 2 (woken 0 two_sleep) ≡ ok (led add_one (woken 0 two_sleep) 2))
spurious_leader_example =
    spurious_leader add_one 3 0 2 three_started two-Steps (omega arith) refl refl last_runs
