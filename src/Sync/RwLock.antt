-- ===== src/Sync/RwLock.antt =====
-- sync/rwlock.hpp: two readers-writer locks, whose operations all end in `not_built`. The mutex and
-- the condition variables, which no stub uses, are left out.
use paracore.Base.{ℕ, Bool, false}
use paracore.Core.Outcome.{Outcome}
use paracore.Core.Modules.{Module, not_built}
use paracore.Sync.Lockable.{Lockable}

-- `SharedLockable`: a lock that readers can share.
pub record SharedLockable (L : Type 0) : Type 0 where
  pub exclusive : Lockable L
  pub lock_shared : L → Outcome L
  pub try_lock_shared : L → Outcome (Bool × L)
  pub unlock_shared : L → Outcome L

pub record ReaderPreferenceRwLock : Type 0 where
  pub readers : ℕ
  pub writer : Bool

pub record FairRwLock : Type 0 where
  pub readers : ℕ
  pub waiting_writers : ℕ
  pub writer : Bool

abbrev pub new_reader_preference : ReaderPreferenceRwLock
new_reader_preference = record { readers = 0; writer = false }

abbrev pub new_fair : FairRwLock
new_fair = record { readers = 0; waiting_writers = 0; writer = false }

abbrev reader_preference_exclusive : Lockable ReaderPreferenceRwLock
reader_preference_exclusive = record {
  lock = λ l. not_built Module.monitors "ReaderPreferenceRwLock::lock";
  try_lock = λ l. not_built Module.monitors "…::try_lock";
  unlock = λ l. not_built Module.monitors "ReaderPreferenceRwLock::unlock";
  name = λ l. "reader-pref";
}

abbrev pub reader_preference_rw_lock : SharedLockable ReaderPreferenceRwLock
reader_preference_rw_lock = record {
  exclusive = reader_preference_exclusive;
  lock_shared = λ l. not_built Module.monitors "…::lock_shared";
  try_lock_shared = λ l. not_built Module.monitors "…::try_lock_shared";
  unlock_shared = λ l. not_built Module.monitors "…::unlock_shared";
}

abbrev fair_exclusive : Lockable FairRwLock
fair_exclusive = record {
  lock = λ l. not_built Module.monitors "FairRwLock::lock";
  try_lock = λ l. not_built Module.monitors "FairRwLock::try_lock";
  unlock = λ l. not_built Module.monitors "FairRwLock::unlock";
  name = λ l. "fair";
}

abbrev pub fair_rw_lock : SharedLockable FairRwLock
fair_rw_lock = record {
  exclusive = fair_exclusive;
  lock_shared = λ l. not_built Module.monitors "FairRwLock::lock_shared";
  try_lock_shared = λ l. not_built Module.monitors "…::try_lock_shared";
  unlock_shared = λ l. not_built Module.monitors "FairRwLock::unlock_shared";
}
