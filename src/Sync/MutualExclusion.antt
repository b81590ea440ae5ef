-- ===== src/Sync/MutualExclusion.antt =====
-- FilterLock and BakeryLock of sync/mutual_exclusion.hpp, whose operations all end in `not_built`.
use paracore.Base.{ℕ}
use paracore.Core.Modules.{Module, not_built}
use paracore.Sync.Lockable.{Lockable}

pub record FilterLock : Type 0 where
  pub threads : ℕ

pub record BakeryLock : Type 0 where
  pub threads : ℕ

abbrev pub new_filter : ℕ → FilterLock
new_filter threads = record { threads = threads }

abbrev pub new_bakery : ℕ → BakeryLock
new_bakery threads = record { threads = threads }

abbrev pub filter_lock : Lockable FilterLock
filter_lock = record {
  lock = λ l. not_built Module.mutual_exclusion "FilterLock::lock";
  try_lock = λ l. not_built Module.mutual_exclusion "FilterLock::try_lock";
  unlock = λ l. not_built Module.mutual_exclusion "FilterLock::unlock";
  name = λ l. "filter";
}

abbrev pub bakery_lock : Lockable BakeryLock
bakery_lock = record {
  lock = λ l. not_built Module.mutual_exclusion "BakeryLock::lock";
  try_lock = λ l. not_built Module.mutual_exclusion "BakeryLock::try_lock";
  unlock = λ l. not_built Module.mutual_exclusion "BakeryLock::unlock";
  name = λ l. "bakery";
}
