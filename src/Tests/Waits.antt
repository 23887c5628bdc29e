-- ===== src/Tests/Waits.antt =====
-- Runs of the lock and of the connection pools.
use filehub_cloud.Base.{◌+◌, true, false, ◌≡◌, [], ◌∷◌, refl, arith, count}
use filehub_cloud.Lock.{new_lock, try_lock_for, unlock, scoped_acquire, scoped_release}
use filehub_cloud.Lock.Exclusion.{
  System, Reach, reach-IsHeldOnce, start, then_step, acquires, releases,
}
use filehub_cloud.Pool.{
  Pool, init, make_conns, pop_front, grow, notify_one, get_conn, resume, resume_timed, rel_conn,
  contains,
}
use filehub_cloud.Pool.Safety.{Lending, IsSound, reach-IsSound, settled, gets, returns, resumes}
use filehub_cloud.Pool.Safety
use filehub_cloud.Pool.Waits.{IsAwake, IsServed, reach-IsAwake, rel_conn-IsServed}
use filehub_cloud.Pool.Waits

-- Thread 1 gets the lock, thread 2 does not, thread 1 lets it go, thread 3 gets it.
abbrev contended : System
contended = record {
  lock = record { locked = true; stop = false };
  scopes = (3, true) ∷ (2, false) ∷ [];
}

contended_reached : Reach contended
unfolding scoped_acquire scoped_release try_lock_for unlock new_lock
contended_reached =
    then_step
      (then_step (then_step (then_step start (acquires 1)) (acquires 2))
        (releases ((2, false) ∷ []) [] 1 true))
      (acquires 3)

reach-IsHeldOnce_example : count (λ p. p.1) contended.scopes ≡ 1
unfolding count
reach-IsHeldOnce_example = reach-IsHeldOnce contended_reached

-- A pool of one connection and at most two: both are lent, a third call waits, one comes back and
-- the wait ends with it.
abbrev exhausted : Lending
exhausted = record {
  pool = record {
    free_list = [];
    cur_conn_cnt = 2;
    max_conn_cnt = 2;
    abort_request = false;
    next_conn = 2;
    waiting = 0;
    woken = 0;
  };
  lent = 0 ∷ 1 ∷ [];
}

exhausted_reached : Safety.Reach 1 2 exhausted
unfolding init make_conns get_conn pop_front grow rel_conn notify_one contains resume
exhausted_reached =
    Safety.then_step
      (Safety.then_step
        (Safety.then_step (Safety.then_step (Safety.then_step Safety.start (gets true)) (gets true))
          (gets true))
        (returns (1 ∷ []) [] 0))
      resumes

reach-IsSound_example : IsSound exhausted
reach-IsSound_example = reach-IsSound (omega arith) exhausted_reached

-- A pool of one connection at most, which is lent, and a call that sleeps.
abbrev sleeping : Pool
sleeping = record {
  free_list = [];
  cur_conn_cnt = 1;
  max_conn_cnt = 1;
  abort_request = false;
  next_conn = 1;
  waiting = 1;
  woken = 0;
}

sleeping_reached : Waits.Reach 1 1 sleeping
unfolding init make_conns get_conn pop_front
sleeping_reached = Waits.then_step (Waits.then_step Waits.start (Waits.gets true)) (Waits.gets true)

reach-IsAwake_example : IsAwake sleeping
reach-IsAwake_example = reach-IsAwake sleeping_reached

sleeping_fresh : contains 0 sleeping.free_list ≡ false
unfolding contains
sleeping_fresh = refl

rel_conn-IsServed_example :
    ((rel_conn 0 sleeping).woken ≡ 1)
    × ((rel_conn 0 sleeping).waiting + 1 ≡ 1)
    × IsServed (resume (rel_conn 0 sleeping))
    × IsServed (resume_timed (rel_conn 0 sleeping))
rel_conn-IsServed_example = rel_conn-IsServed 0 sleeping_reached (omega arith) sleeping_fresh
