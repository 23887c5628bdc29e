-- ===== src/Pool/Waits.antt =====
-- What ends a wait for a connection: a connection given back, and the destructor.
use filehub_cloud.Base.{
  ℕ, ◌+◌, ◌-◌, ◌≤◌, ◌<◌, Bool, true, false, ◌≡◌, ◌⊎◌, List, [], ◌∷◌, ◌++◌, refl, inl, inr, arith,
  length, length-append,
}
use filehub_cloud.Pool.{
  Pool, Outcome, null, conn, waits, init, pop_front, grow, get_conn, resume, resume_timed, rel_conn,
  contains, notify_one, notify_all, is_empty, shut_down_db, shut_down_cache,
}

-- A call up to its end or its wait, a call that is awake again, a connection that comes back, a sleeping
-- call that wakes by itself or by its limit, and the destructors.
pub data Step : Pool → Pool → Type 0 where
  gets : {p : Pool} (connects : Bool) → Step p (get_conn connects p).1
  resumes : {p : Pool} → 0 < p.woken → Step p (resume p).1
  resumes_timed : {p : Pool} → 0 < p.woken → Step p (resume_timed p).1
  returns : {p : Pool} (c : ℕ) → Step p (rel_conn c p)
  wakes :
      {p : Pool}
      → 0 < p.waiting
      → Step p (record p { waiting = p.waiting - 1; woken = p.woken + 1 })
  ends_db : {p : Pool} → Step p (shut_down_db p)
  ends_cache : {p : Pool} → Step p (shut_down_cache p)

pub data Reach (min max : ℕ) : Pool → Type 0 where
  start : Reach min max (init min max)
  then_step : {p q : Pool} → Reach min max p → Step p q → Reach min max q

-- No call sleeps; or one does, for each free connection a call was woken, and the pool goes on.
abbrev pub IsAwake : Pool → Type 0
IsAwake p = (p.waiting ≡ 0) ⊎ ((length p.free_list ≤ p.woken) × (p.abort_request ≡ false))

get_conn-IsAwake : (connects : Bool) (p : Pool) → IsAwake p → IsAwake (get_conn connects p).1
unfolding get_conn pop_front grow
get_conn-IsAwake connects p h = ground (arith, length-append p.free_list (p.next_conn ∷ []))

resume-IsAwake : (p : Pool) → 0 < p.woken → IsAwake p → IsAwake (resume p).1
unfolding resume pop_front
resume-IsAwake p w h = ground arith

resume_timed-IsAwake : (p : Pool) → 0 < p.woken → IsAwake p → IsAwake (resume_timed p).1
unfolding resume_timed pop_front
resume_timed-IsAwake p w h = ground arith

rel_conn-IsAwake : (c : ℕ) (p : Pool) → IsAwake p → IsAwake (rel_conn c p)
unfolding rel_conn notify_one
rel_conn-IsAwake c p h = ground (arith, length-append p.free_list (c ∷ []))

Step-IsAwake : {p q : Pool} → Step p q → IsAwake p → IsAwake q
unfolding shut_down_db shut_down_cache notify_all
Step-IsAwake (gets {p} connects) h = get_conn-IsAwake connects p h
Step-IsAwake (resumes {p} w) h = resume-IsAwake p w h
Step-IsAwake (resumes_timed {p} w) h = resume_timed-IsAwake p w h
Step-IsAwake (returns {p} c) h = rel_conn-IsAwake c p h
Step-IsAwake (wakes {p} w) h = ground arith
Step-IsAwake (ends_db {p}) h = inl refl
Step-IsAwake (ends_cache {p}) h = inl refl

-- After every sequence of calls, of waits that go on or end, of connections given back, and of the
-- destructor, no wake-up is lost: where a call sleeps, at least as many calls were woken and have not
-- had the mutex since as connections are free, and the pool is not being destroyed.
pub reach-IsAwake : {min max : ℕ} {p : Pool} → Reach min max p → IsAwake p
unfolding init
reach-IsAwake start = inl refl
reach-IsAwake (then_step r step) = Step-IsAwake step (reach-IsAwake r)

-- A call ends with a connection.
abbrev pub IsServed : Outcome × Pool → Type 0
IsServed (conn c, p) = Unit {0}
IsServed (null, p) = ⊥
IsServed (waits, p) = ⊥

served : (c : ℕ) (p : Pool) (free : List ℕ) → IsServed (pop_front p (free ++ c ∷ []))
unfolding pop_front
served c p [] = tt
served c p (d ∷ free) = tt

not_empty : (c : ℕ) (free : List ℕ) → is_empty (free ++ c ∷ []) ≡ false
not_empty c [] = refl
not_empty c (d ∷ free) = refl

resumed :
    (c : ℕ) (p : Pool)
    → contains c p.free_list ≡ false
    → p.abort_request ≡ false
    → IsServed (resume (rel_conn c p)) × IsServed (resume_timed (rel_conn c p))
unfolding rel_conn notify_one resume resume_timed
resumed c p fresh going =
    rw (fresh, going, not_empty c p.free_list) (served c _ p.free_list, served c _ p.free_list)

wakes_one :
    (c : ℕ) (p : Pool)
    → 0 < p.waiting
    → contains c p.free_list ≡ false
    → ((rel_conn c p).woken ≡ p.woken + 1) × ((rel_conn c p).waiting + 1 ≡ p.waiting)
unfolding rel_conn notify_one
wakes_one c p asleep fresh = ground arith

going_on : (p : Pool) → 0 < p.waiting → IsAwake p → p.abort_request ≡ false
going_on p asleep (inl none_asleep) = absurd (omega arith)
going_on p asleep (inr (enough, going)) = going

-- In a pool after any sequence of steps in which a call sleeps, a connection that comes back, and is not
-- free already, wakes one of the sleeping calls. A woken call that then has the mutex ends with a
-- connection, whether its wait has a limit or not.
pub rel_conn-IsServed :
    {min max : ℕ} {p : Pool} (c : ℕ)
    → Reach min max p
    → 0 < p.waiting
    → contains c p.free_list ≡ false
    → ((rel_conn c p).woken ≡ p.woken + 1)
      × ((rel_conn c p).waiting + 1 ≡ p.waiting)
      × IsServed (resume (rel_conn c p))
      × IsServed (resume_timed (rel_conn c p))
rel_conn-IsServed {p = p} c r asleep fresh =
    let (woken, left) = wakes_one c p asleep fresh in
    let (untimed, timed) = resumed c p fresh (going_on p asleep (reach-IsAwake r)) in
    (woken, left, untimed, timed)

-- The woken calls have the mutex one after the other; true for a wait with a limit.
abbrev resume_one : Bool → Pool → Outcome × Pool
resume_one true p = resume_timed p
resume_one false p = resume p

abbrev pub resume_each : List Bool → Pool → List Outcome × Pool
resume_each [] p = ([], p)
resume_each (limited ∷ kinds) p =
    let (o, q) = resume_one limited p in let (os, r) = resume_each kinds q in (o ∷ os, r)

-- Every call ends with NULL, and none is left.
abbrev pub AllNull : List Outcome → Type 0
AllNull [] = Unit {0}
AllNull (o ∷ os) = (o ≡ null) × AllNull os

abbrev pub IsDrained : List Outcome × Pool → Type 0
IsDrained (os, p) = AllNull os × (p.waiting ≡ 0) × (p.woken ≡ 0)
