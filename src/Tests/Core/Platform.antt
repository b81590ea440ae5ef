-- ===== src/Tests/Core/Platform.antt =====
-- The errno numbers of Linux, and a mutex that checks its errors.
use paracore.Base.{
  ℕ, ◌≡◌, ◌≢◌, refl, sym, ap, Option, none, some, ◌==◌, if◌then◌else◌, ==_ne, ==_refl, arith,
}
use paracore.Core.Status.{Errno, IsErrno}
use paracore.Core.Mutex.{Pthread, ErrorChecking}

abbrev pub linux : Errno
linux = record {
  einval = 22;
  enomem = 12;
  eagain = 11;
  ebusy = 16;
  etimedout = 110;
  edeadlk = 35;
  eperm = 1;
}

pub linux-IsErrno : IsErrno linux
linux-IsErrno = record {
  einval_pos = omega arith;
  enomem_pos = omega arith;
  eagain_pos = omega arith;
  ebusy_pos = omega arith;
  etimedout_pos = omega arith;
  edeadlk_pos = omega arith;
  eperm_pos = omega arith;
  einval-enomem = omega arith;
  einval-eagain = omega arith;
  einval-ebusy = omega arith;
  einval-etimedout = omega arith;
  enomem-eagain = omega arith;
  enomem-ebusy = omega arith;
  enomem-etimedout = omega arith;
  eagain-ebusy = omega arith;
  eagain-etimedout = omega arith;
  ebusy-etimedout = omega arith;
  edeadlk-eperm = omega arith;
  edeadlk-einval = omega arith;
  edeadlk-ebusy = omega arith;
  eperm-einval = omega arith;
  eperm-ebusy = omega arith;
}

-- A mutex is the thread that holds it.
abbrev locked_by : ℕ → Option ℕ → Option (ℕ × Option ℕ)
locked_by t none = some (0, some t)
locked_by t (some u) = if u == t then some (35, some u) else none

abbrev tried_by : ℕ → Option ℕ → ℕ × Option ℕ
tried_by t none = (0, some t)
tried_by t (some u) = (16, some u)

abbrev unlocked_by : ℕ → Option ℕ → ℕ × Option ℕ
unlocked_by t none = (1, none)
unlocked_by t (some u) = if u == t then (0, none) else (1, some u)

abbrev pub checking : Pthread
checking = record {
  Mutex = Option ℕ;
  mutex_lock = locked_by;
  mutex_trylock = tried_by;
  mutex_unlock = unlocked_by;
}

pub checking-ErrorChecking : ErrorChecking linux checking (λ m. m)
checking-ErrorChecking = record {
  lock_free = λ t m e. (some t, rw e refl, refl);
  lock_held = λ t u m e ne. rw (e, ==_ne u t (λ z. ne (sym z)));
  lock_own = λ t m e. rw (e, ==_refl t);
  trylock_free = λ t m e. (some t, rw e refl, refl);
  trylock_held = λ t u m e. rw e;
  unlock_own = λ t m e. (none, rw (e, ==_refl t), refl);
  unlock_other = λ t m. other t m;
}
  where
    other : (t : ℕ) (m : Option ℕ) → m ≢ some t → unlocked_by t m ≡ (1, m)
    other t none ne = refl
    other t (some u) ne = rw (==_ne u t (λ e. ne (ap some e)))
