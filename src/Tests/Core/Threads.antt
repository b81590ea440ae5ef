-- ===== src/Tests/Core/Threads.antt =====
-- Threads 4, 9 and 4 again ask for their ids, and error codes of Linux come back from calls.
use paracore.Base.{ℕ, zero, suc, ◌<◌, ◌≡◌, ◌≢◌, ◌↔◌, refl, inl, inr, [], ◌∷◌, arith}
use paracore.Core.Status.{Status, OsError, last_os_error, from_errno}
use paracore.Core.Status.Laws.{from_errno_iff, last_os_error-forgets}
use paracore.Core.Thread.{init, ask, pin_this_thread, ThreadIds}
use paracore.Core.Thread.Identity.{Occurs, ask-ThreadIds}
use paracore.Core.Thread.Pinning.{pin_this_thread-os_error}
use paracore.Mem.Reclaim.{LeakDomain}
use paracore.Tests.Core.Platform.{linux, linux-IsErrno}

two_call : (t : ℕ) → t < 2 → Occurs t (1 ∷ 0 ∷ [])
two_call zero lt = inr (inl refl)
two_call (suc t) lt = inl (omega arith)

ask-ThreadIds_example : ThreadIds 2 (ask (1 ∷ 0 ∷ []) init).id
ask-ThreadIds_example = ask-ThreadIds 2 (1 ∷ 0 ∷ []) (omega arith) two_call

abbrev fresh : OsError
fresh = record { g_last_os_error = 0 }

from_errno_iff_example :
    ((let (st, s') = from_errno linux 22 fresh in
      ((st ≡ Status.ok) ↔ (◌≡◌ {A = ℕ} 22 0))
      × ((st ≡ Status.invalid) ↔ (22 ≡ linux.einval))
      × ((st ≡ Status.no_memory) ↔ (22 ≡ linux.enomem))
      × ((st ≡ Status.again) ↔ (22 ≡ linux.eagain))
      × ((st ≡ Status.busy) ↔ (22 ≡ linux.ebusy))
      × ((st ≡ Status.timed_out) ↔ (22 ≡ linux.etimedout))
      × (last_os_error s' ≡ 22)))
from_errno_iff_example = from_errno_iff linux 22 fresh linux-IsErrno

-- EPERM, which has no status of its own, and then EINVAL.
last_os_error-forgets_example :
    last_os_error (from_errno linux 22 (from_errno linux 1 fresh).1).1 ≢ 1
unfolding from_errno
last_os_error-forgets_example = last_os_error-forgets linux 1 22 fresh refl (λ e. cc)

pin_this_thread-os_error_example :
    (((pin_this_thread linux 1 fresh).0 ≡ Status.os_error) ↔ (
      (◌≢◌ {A = ℕ} 1 0)
      × (1 ≢ linux.einval)
      × (1 ≢ linux.enomem)
      × (1 ≢ linux.eagain)
      × (1 ≢ linux.ebusy)
      × (1 ≢ linux.etimedout)))
    × ((pin_this_thread linux 22 fresh).0 ≡ Status.invalid)
    × ((pin_this_thread linux 11 fresh).0 ≡ Status.again)
pin_this_thread-os_error_example = pin_this_thread-os_error linux 1 fresh linux-IsErrno

-- The count is one below 2^64.
abbrev full : LeakDomain
full = record { retired = 18446744073709551615 }
