-- ===== src/Sync/Semaphore.antt =====
-- `CountingSemaphore` of sync/semaphore.hpp, whose operations all end in `not_built`. The mutex and
-- the condition variable, which no stub uses, are left out.
use paracore.Base.{Bool}
use paracore.Base.Int.{ℤ}
use paracore.Core.Outcome.{Outcome}
use paracore.Core.Modules.{Module, not_built}

-- `count` is a `ptrdiff_t`.
pub record CountingSemaphore : Type 0 where
  pub count : ℤ

abbrev pub new_counting : ℤ → CountingSemaphore
new_counting initial = record { count = initial }

abbrev pub acquire : CountingSemaphore → Outcome CountingSemaphore
acquire s = not_built Module.monitors "CountingSemaphore::acquire"

abbrev pub try_acquire : CountingSemaphore → Outcome (Bool × CountingSemaphore)
try_acquire s = not_built Module.monitors "…::try_acquire"

-- The timeout is in milliseconds.
abbrev pub try_acquire_for : ℤ → CountingSemaphore → Outcome (Bool × CountingSemaphore)
try_acquire_for timeout s = not_built Module.monitors "CountingSemaphore::try_acquire_for"

abbrev pub release : ℤ → CountingSemaphore → Outcome CountingSemaphore
release n s = not_built Module.monitors "CountingSemaphore::release"
