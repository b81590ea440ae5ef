-- ===== src/Core/Mutex/CondVar/Deadline.antt =====
-- The deadline of `CondVar::wait_for` and the waits that it makes on the way to it.
use paracore.Base.{ℕ, ◌+◌, ◌*◌, ◌<◌, ◌≡◌, ◌↔◌, arith}
use paracore.Base.Int.{ℤ, to_ℕ}
use paracore.Core.Status.{Status, Errno, IsErrno, OsError}
use paracore.Core.Mutex.CondVar.{Timespec, deadline, wait_for_status}

abbrev pub nanoseconds : Timespec → ℕ
nanoseconds ts = ts.tv_sec * 1000000000 + ts.tv_nsec

-- For a clock reading with less than a second of nanoseconds, the deadline of `wait_for` has less
-- than a second of nanoseconds too, and lies exactly the timeout after the reading, or at the
-- reading itself if the timeout is negative.
pub deadline_lem :
    (ts : Timespec) (timeout : ℤ)
    → ts.tv_nsec < 1000000000
    → ((deadline ts timeout).tv_nsec < 1000000000)
      × (nanoseconds (deadline ts timeout) ≡ nanoseconds ts + to_ℕ timeout * 1000000)
unfolding deadline
deadline_lem ts timeout h = ground arith

-- With the distinct error numbers of POSIX, `wait_for` answers `TimedOut` exactly when
-- `pthread_cond_timedwait` returned ETIMEDOUT, and `Ok` exactly when it returned 0.
pub wait_for_status_iff :
    (os : Errno) (rc : ℕ) (s : OsError)
    → IsErrno os
    → (((wait_for_status os rc s).0 ≡ Status.timed_out) ↔ (rc ≡ os.etimedout))
      × (((wait_for_status os rc s).0 ≡ Status.ok) ↔ (rc ≡ 0))
unfolding wait_for_status
wait_for_status_iff os rc s h = ground arith
