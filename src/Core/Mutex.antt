-- ===== src/Core/Mutex.antt =====
-- core/mutex.hpp and src/core/mutex.cpp: the blocking lock.
-- `pthread_mutex_t` is the platform's: a parameter, with what POSIX documents of a mutex of type
-- PTHREAD_MUTEX_ERRORCHECK, the type of the debug build (PARA_MUTEX_CHECKED).
pub mod Checked
pub mod CondVar
pub mod Trace
use paracore.Base.{ℕ, String, ◌≡◌, ◌≢◌, Bool, true, false, Option, none, some, ◌==◌, if◌then◌else◌}
use paracore.Core.Status.{Errno}
use paracore.Core.Outcome.{Message, Outcome}

-- The calls on one mutex, by the calling thread: the code that they return and the mutex after
-- them. `none` is a call that does not return, because another thread holds the mutex.
pub record Pthread : Type 1 where
  pub Mutex : Type 0
  pub mutex_lock : ℕ → Mutex → Option (ℕ × Mutex)
  pub mutex_trylock : ℕ → Mutex → ℕ × Mutex
  pub mutex_unlock : ℕ → Mutex → ℕ × Mutex

-- POSIX on an initialised error-checking mutex; `holder` is the thread that has locked it.
pub record ErrorChecking (os : Errno) (p : Pthread) (holder : p.Mutex → Option ℕ) : Type 0 where
  pub lock_free :
      (t : ℕ) (m : p.Mutex)
      → holder m ≡ none
      → (m' : p.Mutex) × (p.mutex_lock t m ≡ some (0, m')) × (holder m' ≡ some t)
  pub lock_held : (t u : ℕ) (m : p.Mutex) → holder m ≡ some u → t ≢ u → p.mutex_lock t m ≡ none
  pub lock_own : (t : ℕ) (m : p.Mutex) → holder m ≡ some t → p.mutex_lock t m ≡ some (os.edeadlk, m)
  pub trylock_free :
      (t : ℕ) (m : p.Mutex)
      → holder m ≡ none
      → (m' : p.Mutex) × (p.mutex_trylock t m ≡ (0, m')) × (holder m' ≡ some t)
  pub trylock_held :
      (t u : ℕ) (m : p.Mutex) → holder m ≡ some u → p.mutex_trylock t m ≡ (os.ebusy, m)
  pub unlock_own :
      (t : ℕ) (m : p.Mutex)
      → holder m ≡ some t
      → (m' : p.Mutex) × (p.mutex_unlock t m ≡ (0, m')) × (holder m' ≡ none)
  pub unlock_other : (t : ℕ) (m : p.Mutex) → holder m ≢ some t → p.mutex_unlock t m ≡ (os.eperm, m)

-- `mutex_fatal`
unfoldable pub mutex_fatal {ℓ} : {A : Type ℓ} → Errno → String → ℕ → Outcome A
mutex_fatal os op rc =
    let why : String =
      if rc == os.edeadlk
      then "recursive lock — the thread already holds this lock"
      else if rc == os.eperm
      then "unlock from a thread that does not hold the lock"
      else if rc == os.einval
      then "invalid lock (destroyed? never initialised?)"
      else "unknown error" in
    Outcome.aborts (Message.mutex_failed op rc why)

-- `Mutex::Mutex()`, where `pthread_mutex_init` returns `rc`.
unfoldable pub construct : Errno → ℕ → Outcome (Unit {0})
unfolding mutex_fatal
construct os rc = if rc == 0 then Outcome.returns tt else mutex_fatal os "Mutex" rc

module _ (os : Errno) (p : Pthread) where
  -- `Mutex::lock()` by thread `t`.
  unfoldable pub lock : ℕ → p.Mutex → Outcome p.Mutex
  unfolding mutex_fatal
  lock t m = elim (p.mutex_lock t m) [
    | none ↦ Outcome.blocks
    | some (rc, m') ↦ if rc == 0 then Outcome.returns m' else mutex_fatal os "lock" rc
  ]

  -- `Mutex::try_lock()` by thread `t`.
  unfoldable pub try_lock : ℕ → p.Mutex → Outcome (Bool × p.Mutex)
  unfolding mutex_fatal
  try_lock t m =
      let (rc, m') = p.mutex_trylock t m in
      if rc == 0
      then Outcome.returns (true, m')
      else if rc == os.ebusy
      then Outcome.returns (false, m')
      else mutex_fatal os "try_lock" rc

  -- `Mutex::unlock()` by thread `t`.
  unfoldable pub unlock : ℕ → p.Mutex → Outcome p.Mutex
  unfolding mutex_fatal
  unlock t m =
      let (rc, m') = p.mutex_unlock t m in
      if rc == 0 then Outcome.returns m' else mutex_fatal os "unlock" rc
