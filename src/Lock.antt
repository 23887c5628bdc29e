-- ===== src/Lock.antt =====
-- FileInfoLock and ScopedFileInfoLock of application/filehub/api/api_common.h. The mutex makes each
-- method one step; a wait is one step at the moment at which it ends.
pub mod Exclusion
use filehub_cloud.Base.{Bool, true, false, not, ◌||◌, if◌then◌else◌}

pub record FileInfoLock : Type 0 where
  pub locked : Bool
  pub stop : Bool

unfoldable pub new_lock : FileInfoLock
new_lock = record { locked = false; stop = false }

-- What the wait waits for.
abbrev pub may_go_on : FileInfoLock → Bool
may_go_on l = not l.locked || l.stop

-- TryLockFor when the wait ends, by its condition or by the time limit.
unfoldable pub try_lock_for : FileInfoLock → Bool × FileInfoLock
try_lock_for l =
    if may_go_on l
    then (if l.stop then (false, l) else (true, record l { locked = true }))
    else (false, l)

unfoldable pub unlock : FileInfoLock → FileInfoLock
unlock l = record l { locked = false }

pub stop_waiting : FileInfoLock → FileInfoLock
stop_waiting l = record l { stop = true }

pub reset : FileInfoLock → FileInfoLock
reset l = record l { stop = false; locked = false }

-- ScopedFileInfoLock holds its `is_locked_`; the destructor releases only what it got.
unfoldable pub scoped_acquire : FileInfoLock → Bool × FileInfoLock
unfolding try_lock_for
scoped_acquire l = try_lock_for l

unfoldable pub scoped_release : Bool → FileInfoLock → FileInfoLock
unfolding unlock
scoped_release is_locked l = if is_locked then unlock l else l
