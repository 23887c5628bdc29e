-- ===== src/Lock/Exclusion.antt =====
-- Scoped locks of any number of threads over one FileInfoLock.
use filehub_cloud.Base.{
  ℕ, Bool, true, false, ◌≡◌, List, [], ◌∷◌, ◌++◌, refl, arith, if◌then◌else◌, count, count-append,
}
use filehub_cloud.Lock.{
  FileInfoLock, new_lock, try_lock_for, unlock, stop_waiting, scoped_acquire, scoped_release,
}

-- The lock, and the scoped locks that live: the thread of each, with its `is_locked_`.
pub record System : Type 0 where
  pub lock : FileInfoLock
  pub scopes : List (ℕ × Bool)

abbrev holds : ℕ × Bool → Bool
holds (thread, is_locked) = is_locked

-- How many scoped locks have the lock.
abbrev holders : System → ℕ
holders s = count holds s.scopes

abbrev pub no_scopes : System
no_scopes = record { lock = new_lock; scopes = [] }

-- A scoped lock of the thread is made, with the result of its TryLockFor.
abbrev pub entered : ℕ → Bool × FileInfoLock → List (ℕ × Bool) → System
entered thread (is_locked, l) scopes = record { lock = l; scopes = (thread, is_locked) ∷ scopes }

-- The threads' steps: a scoped lock is made, is destroyed, and StopWaiting.
pub data Step : System → System → Type 0 where
  acquires : {s : System} (thread : ℕ) → Step s (entered thread (scoped_acquire s.lock) s.scopes)
  releases :
      {l : FileInfoLock} (before after : List (ℕ × Bool)) (thread : ℕ) (is_locked : Bool)
      → Step
          (record { lock = l; scopes = before ++ (thread, is_locked) ∷ after })
          (record { lock = scoped_release is_locked l; scopes = before ++ after })
  stops : {s : System} → Step s (record s { lock = stop_waiting s.lock })

pub data Reach : System → Type 0 where
  start : Reach no_scopes
  then_step : {s t : System} → Reach s → Step s t → Reach t

-- The flag tells whether one scoped lock has the lock.
abbrev pub IsHeldOnce : System → Type 0
IsHeldOnce s = holders s ≡ (if s.lock.locked then 1 else 0)

entered-IsHeldOnce :
    (thread : ℕ) (l : FileInfoLock) (scopes : List (ℕ × Bool))
    → count holds scopes ≡ (if l.locked then 1 else 0)
    → IsHeldOnce (entered thread (scoped_acquire l) scopes)
unfolding count scoped_acquire try_lock_for
entered-IsHeldOnce thread l scopes h = ground arith

left-IsHeldOnce :
    (l : FileInfoLock) (before after : List (ℕ × Bool)) (thread : ℕ) (is_locked : Bool)
    → count holds (before ++ (thread, is_locked) ∷ after) ≡ (if l.locked then 1 else 0)
    → IsHeldOnce (record { lock = scoped_release is_locked l; scopes = before ++ after })
unfolding count scoped_release unlock
left-IsHeldOnce l before after thread true h =
    ground
      (arith, count-append holds before after, count-append holds before ((thread, true) ∷ after))
left-IsHeldOnce l before after thread false h =
    ground
      (arith, count-append holds before after, count-append holds before ((thread, false) ∷ after))

Step-IsHeldOnce : {s t : System} → Step s t → IsHeldOnce s → IsHeldOnce t
unfolding stop_waiting
Step-IsHeldOnce (acquires {s} thread) h = entered-IsHeldOnce thread s.lock s.scopes h
Step-IsHeldOnce (releases {l} before after thread is_locked) h =
    left-IsHeldOnce l before after thread is_locked h
Step-IsHeldOnce (stops {s}) h = h

-- In every order of steps of any number of threads that only use scoped locks and StopWaiting, on
-- a new FileInfoLock, the flag is set just when a scoped lock has the lock, and then one has it:
-- the number of scoped locks that have it is 1 if the flag is set and 0 if not.
pub reach-IsHeldOnce : {s : System} → Reach s → IsHeldOnce s
unfolding count new_lock
reach-IsHeldOnce start = refl
reach-IsHeldOnce (then_step r step) = Step-IsHeldOnce step (reach-IsHeldOnce r)
