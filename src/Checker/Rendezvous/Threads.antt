-- ===== src/Checker/Rendezvous/Threads.antt =====
-- Threads that meet at rendezvous points of rumur/resources/header.c, in any order.
use rumur.Prelude.{ℕ, zero, suc, ◌+◌, ◌≤◌, ◌<◌, ◌≡◌, refl, if◌then◌else◌, ◌==◌, Option, arith}
use rumur.Prelude.Results.{Result, ok, ◌>>=◌}
use rumur.Checker.Rendezvous.{
  Barrier, Signal, broadcast, wait, Attempt, retry, left, rendezvous, rendezvous_opt_out,
}

-- A thread runs, sleeps in `pthread_cond_wait`, or has opted out.
pub data Thread : Type 0 where
  running waiting opted_out : Thread

abbrev pub is_running : Thread → ℕ
is_running running = 1
is_running _ = 0

abbrev pub is_waiting : Thread → ℕ
is_waiting waiting = 1
is_waiting _ = 0

-- `pthread_cond_broadcast`
abbrev pub wake : Thread → Thread
wake waiting = running
wake t = t

abbrev pub become : (ℕ → Thread) → ℕ → Thread → ℕ → Thread
become thread t to j = if j == t then to else thread j

pub record System (Shared : Type 0) : Type 0 where
  pub barrier : Barrier
  pub shared : Shared
  pub thread : ℕ → Thread

module _ {Shared : Type 0} (action : Option (Shared → Shared)) where
  abbrev pub signalled : ℕ → (ℕ → Thread) → Signal → ℕ → Thread
  signalled t thread broadcast j = wake (thread j)
  signalled t thread wait j = become thread t waiting j

  abbrev pub attempted : ℕ → (ℕ → Thread) → Attempt → ℕ → Thread
  attempted t thread retry j = wake (thread j)
  attempted t thread left j = become thread t opted_out j

  unfoldable pub meet : ℕ → System Shared → Result (System Shared)
  meet t s = do
    (signal, b, d) ← rendezvous action s.barrier s.shared
    ok (record { barrier = b; shared = d; thread = signalled t s.thread signal })

  unfoldable pub opt_out : ℕ → System Shared → Result (System Shared)
  opt_out t s = do
    (attempt, b, d) ← rendezvous_opt_out action s.barrier s.shared
    ok (record { barrier = b; shared = d; thread = attempted t s.thread attempt })

  -- Some running thread's call.
  pub data Step (threads : ℕ) (s : System Shared) : System Shared → Type 0 where
    meets :
        {s' : System Shared} (t : ℕ)
        → t < threads
        → s.thread t ≡ running
        → meet t s ≡ ok s'
        → Step threads s s'
    opts_out :
        {s' : System Shared} (t : ℕ)
        → t < threads
        → s.thread t ≡ running
        → opt_out t s ≡ ok s'
        → Step threads s s'

  -- A number of steps.
  pub data Steps (threads : ℕ) (s : System Shared) : ℕ → System Shared → Type 0 where
    none_yet : Steps threads s 0 s
    and_then :
        {k : ℕ} {s' s'' : System Shared}
        → Steps threads s k s'
        → Step threads s' s''
        → Steps threads s (suc k) s''

-- How many of the threads are in a class.
pub number : (Thread → ℕ) → ℕ → (ℕ → Thread) → ℕ
number w zero thread = 0
number w (suc n) thread = number w n thread + w (thread n)

module _ (w : Thread → ℕ) (thread : ℕ → Thread) (t : ℕ) (to : Thread) where
  number-become_out : (n : ℕ) → n ≤ t → number w n (become thread t to) ≡ number w n thread
  unfolding number
  number-become_out zero out = omega arith
  number-become_out (suc n) out = ground (arith, number-become_out n)

  pub number-become :
      (n : ℕ) → t < n → number w n (become thread t to) + w (thread t) ≡ number w n thread + w to
  unfolding number
  number-become zero at = absurd (omega arith)
  number-become (suc n) at = ground (arith, number-become n, number-become_out n)

pub number-positive :
    (w : Thread → ℕ) (thread : ℕ → Thread) (n t : ℕ) → t < n → w (thread t) ≤ number w n thread
unfolding number
number-positive w thread zero t at = absurd (omega arith)
number-positive w thread (suc n) t at = ground (arith, number-positive w thread n t)

pub number-wake :
    (thread : ℕ → Thread) (n : ℕ)
    → number is_running n (λ j. wake (thread j))
      ≡ number is_running n thread + number is_waiting n thread
unfolding number
number-wake thread zero = omega arith
number-wake thread (suc n) = ground (arith, number-wake thread n)

pub number_waiting-wake :
    (thread : ℕ → Thread) (n : ℕ) → number is_waiting n (λ j. wake (thread j)) ≡ 0
unfolding number
number_waiting-wake thread zero = omega arith
number_waiting-wake thread (suc n) = ground (arith, number_waiting-wake thread n)

pub number_all : (n : ℕ) → number is_running n (λ j. running) ≡ n
unfolding number
number_all zero = omega arith
number_all (suc n) = omega (arith, number_all n)

pub number_none : (n : ℕ) → number is_waiting n (λ j. running) ≡ 0
unfolding number
number_none zero = omega arith
number_none (suc n) = omega (arith, number_none n)

number-some_at :
    (thread : ℕ → Thread) (n : ℕ) (last : Thread)
    → thread n ≡ last
    → (0 < number is_running n thread → (u : ℕ) × (u < n) × (thread u ≡ running))
    → 0 < number is_running n thread + is_running last
    → (u : ℕ) × (u < suc n) × (thread u ≡ running)
number-some_at thread n running at before some = (n, omega arith, at)
number-some_at thread n waiting at before some =
    let (u, below, runs) = before (omega arith) in (u, omega arith, runs)
number-some_at thread n opted_out at before some =
    let (u, below, runs) = before (omega arith) in (u, omega arith, runs)

pub number-some :
    (thread : ℕ → Thread) (n : ℕ)
    → 0 < number is_running n thread
    → (u : ℕ) × (u < n) × (thread u ≡ running)
unfolding number
number-some thread zero some = absurd (omega arith)
number-some thread (suc n) some =
    number-some_at thread n (thread n) refl (number-some thread n) some
