-- ===== src/Checker/Rendezvous/Calls.antt =====
-- What a running thread's call does at the rendezvous of rumur/resources/header.c, on every branch.
use rumur.Prelude.{ℕ, ◌-◌, ◌<◌, ◌≡◌, refl, true, false, Option, ltb, lt→ltb, ◌==◌, arith}
use rumur.Prelude.Results.{ok}
use rumur.Checker.Rendezvous.{
  act, rendezvous_arrive, rendezvous_depart, rendezvous, rendezvous_opt_out,
}
use rumur.Checker.Rendezvous.Threads.{waiting, opted_out, wake, become, System, meet, opt_out}

module _ {Shared : Type 0} (action : Option (Shared → Shared)) (s : System Shared) (t : ℕ) where
  open s use {barrier, shared, thread}

  -- after the leader's call
  abbrev pub led : System Shared
  led = record {
    barrier = record {
      running_count = barrier.running_count;
      rendezvous_pending = barrier.running_count;
    };
    shared = act action shared;
    thread = λ j. wake (thread j);
  }

  -- after the call of a thread that is not the last to arrive
  abbrev pub followed : System Shared
  followed = record {
    barrier = record barrier { rendezvous_pending = barrier.rendezvous_pending - 1 };
    shared = shared;
    thread = become thread t waiting;
  }

  abbrev pub departed : System Shared
  departed = record {
    barrier = record {
      running_count = barrier.running_count - 1;
      rendezvous_pending = barrier.rendezvous_pending - 1;
    };
    shared = shared;
    thread = become thread t opted_out;
  }

  -- the tests of the two branches of `rendezvous_arrive`
  pub not_last : 1 < barrier.rendezvous_pending → (barrier.rendezvous_pending - 1 == 0) ≡ false
  not_last early = ground arith

  pub one_left : 1 < barrier.rendezvous_pending → ltb 0 barrier.rendezvous_pending ≡ true
  one_left early = ground arith

  pub meet_last : barrier.rendezvous_pending ≡ 1 → meet action t s ≡ ok led
  unfolding meet rendezvous rendezvous_arrive rendezvous_depart act
  meet_last last = rw last refl

  pub meet_early : 1 < barrier.rendezvous_pending → meet action t s ≡ ok followed
  unfolding meet rendezvous rendezvous_arrive rendezvous_depart act
  meet_early early = rw (one_left early, not_last early) refl

  pub opt_out_last :
      barrier.rendezvous_pending ≡ 1 → 1 < barrier.running_count → opt_out action t s ≡ ok led
  unfolding opt_out rendezvous_opt_out rendezvous_arrive rendezvous_depart act
  opt_out_last last others = rw (last, lt→ltb 1 _ others) refl

  pub opt_out_alone :
      barrier.rendezvous_pending ≡ 1 → barrier.running_count ≡ 1 → opt_out action t s ≡ ok departed
  unfolding opt_out rendezvous_opt_out rendezvous_arrive rendezvous_depart act
  opt_out_alone last alone = rw (last, alone) refl

  pub opt_out_early :
      1 < barrier.rendezvous_pending → 0 < barrier.running_count → opt_out action t s ≡ ok departed
  unfolding opt_out rendezvous_opt_out rendezvous_arrive rendezvous_depart act
  opt_out_early early some = rw (one_left early, not_last early, lt→ltb 0 _ some) refl
