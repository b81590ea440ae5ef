-- ===== src/Core/Thread/Pinning.antt =====
-- What the callers of core/thread.hpp are told about the platform.
use Prim.Native.Nat.{max}
use paracore.Base.{ℕ, ◌≡◌, ◌≢◌, ◌↔◌, arith}
use paracore.Core.Status.{Status, Errno, IsErrno, OsError}
use paracore.Core.Thread.{hardware_concurrency, pin_this_thread}

-- The number of cores is the standard library's answer, raised to 1 where that is 0.
pub hardware_concurrency-max : (n : ℕ) → hardware_concurrency n ≡ max n 1
unfolding hardware_concurrency
hardware_concurrency-max n = ground arith

-- With the distinct error numbers of POSIX, pinning answers `OsError` exactly for the codes that
-- are not 0 and have no status of their own: a refusal with EINVAL is `Invalid`, and one with
-- EAGAIN is `Again`.
pub pin_this_thread-os_error :
    (os : Errno) (rc : ℕ) (s : OsError)
    → IsErrno os
    → (((pin_this_thread os rc s).0 ≡ Status.os_error) ↔ (
        (rc ≢ 0)
        × (rc ≢ os.einval)
        × (rc ≢ os.enomem)
        × (rc ≢ os.eagain)
        × (rc ≢ os.ebusy)
        × (rc ≢ os.etimedout)))
      × ((pin_this_thread os os.einval s).0 ≡ Status.invalid)
      × ((pin_this_thread os os.eagain s).0 ≡ Status.again)
unfolding pin_this_thread
pin_this_thread-os_error os rc s h = ground arith
