-- ===== src/Core/Status/Laws.antt =====
-- `from_errno` and `last_os_error` of src/core/status.cpp: statuses, and what stays in the thread.
use paracore.Base.{ℕ, ◌≡◌, ◌≢◌, ◌↔◌, arith}
use paracore.Core.Status.{Status, Errno, IsErrno, OsError, last_os_error, from_errno}

-- With the distinct error numbers of POSIX, `from_errno` gives `Ok` exactly for the code 0, and
-- each of the five named statuses exactly for its code; the last error of the thread is the code,
-- whatever the status.
pub from_errno_iff :
    (os : Errno) (err : ℕ) (s : OsError)
    → IsErrno os
    → let (st, s') = from_errno os err s in
      ((st ≡ Status.ok) ↔ (err ≡ 0))
      × ((st ≡ Status.invalid) ↔ (err ≡ os.einval))
      × ((st ≡ Status.no_memory) ↔ (err ≡ os.enomem))
      × ((st ≡ Status.again) ↔ (err ≡ os.eagain))
      × ((st ≡ Status.busy) ↔ (err ≡ os.ebusy))
      × ((st ≡ Status.timed_out) ↔ (err ≡ os.etimedout))
      × (last_os_error s' ≡ err)
unfolding from_errno last_os_error
from_errno_iff os err s h = ground arith

-- If `from_errno` gave `OsError` for a code, and then something else for another, `last_os_error`
-- is no longer the code behind the `OsError`.
pub last_os_error-forgets :
    (os : Errno) (a b : ℕ) (s : OsError)
    → (from_errno os a s).0 ≡ Status.os_error
    → (from_errno os b (from_errno os a s).1).0 ≢ Status.os_error
    → last_os_error (from_errno os b (from_errno os a s).1).1 ≢ a
unfolding from_errno last_os_error
last_os_error-forgets os a b s h k = ground arith
