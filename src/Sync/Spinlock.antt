-- ===== src/Sync/Spinlock.antt =====
-- The six locks of sync/spinlock.hpp, whose operations all end in `not_built`. The cache-line
-- alignment is left out.
pub mod Unbuilt
use paracore.Base.{ℕ, Bool, true, false, Option, none, String, ◌++◌}
use paracore.Core.Outcome.{Outcome}
use paracore.Core.Modules.{Module, not_built}
use paracore.Sync.Lockable.{Lockable}

pub record TasLock : Type 0 where
  pub held : Bool

pub record TtasLock : Type 0 where
  pub held : Bool

pub record BackoffLock : Type 0 where
  pub held : Bool
  pub max_spins : ℕ

pub record ArrayLock : Type 0 where
  pub max_threads : ℕ

-- ClhLock has no members.
pub record ClhLock : Type 0 where

-- `tail` points to a node; nothing makes one yet.
pub record McsLock : Type 0 where
  pub tail : Option ℕ

-- The constructors; that of BackoffLock has the default 1024.
abbrev pub new_tas : TasLock
new_tas = record { held = false }

abbrev pub new_ttas : TtasLock
new_ttas = record { held = false }

abbrev pub new_backoff : ℕ → BackoffLock
new_backoff max_spins = record { held = false; max_spins = max_spins }

abbrev pub new_array : ℕ → ArrayLock
new_array max_threads = record { max_threads = max_threads }

abbrev pub new_mcs : McsLock
new_mcs = record { tail = none }

abbrev pub tas_lock : Lockable TasLock
tas_lock = record {
  lock = λ l. not_built Module.spinlocks "TasLock::lock";
  try_lock = λ l. not_built Module.spinlocks "TasLock::try_lock";
  unlock = λ l. not_built Module.spinlocks "TasLock::unlock";
  name = λ l. "tas";
}

abbrev pub ttas_lock : Lockable TtasLock
ttas_lock = record {
  lock = λ l. not_built Module.spinlocks "TtasLock::lock";
  try_lock = λ l. not_built Module.spinlocks "TtasLock::try_lock";
  unlock = λ l. not_built Module.spinlocks "TtasLock::unlock";
  name = λ l. "ttas";
}

abbrev pub backoff_lock : Lockable BackoffLock
backoff_lock = record {
  lock = λ l. not_built Module.spinlocks "BackoffLock::lock";
  try_lock = λ l. not_built Module.spinlocks "BackoffLock::try_lock";
  unlock = λ l. not_built Module.spinlocks "BackoffLock::unlock";
  name = λ l. "ttas+backoff";
}

abbrev pub array_lock : Lockable ArrayLock
array_lock = record {
  lock = λ l. not_built Module.spinlocks "ArrayLock::lock";
  try_lock = λ l. not_built Module.spinlocks "ArrayLock::try_lock";
  unlock = λ l. not_built Module.spinlocks "ArrayLock::unlock";
  name = λ l. "alock";
}

abbrev pub clh_lock : Lockable ClhLock
clh_lock = record {
  lock = λ l. not_built Module.spinlocks "ClhLock::lock";
  try_lock = λ l. not_built Module.spinlocks "ClhLock::try_lock";
  unlock = λ l. not_built Module.spinlocks "ClhLock::unlock";
  name = λ l. "clh";
}

abbrev pub mcs_lock : Lockable McsLock
mcs_lock = record {
  lock = λ l. not_built Module.spinlocks "McsLock::lock";
  try_lock = λ l. not_built Module.spinlocks "McsLock::try_lock";
  unlock = λ l. not_built Module.spinlocks "McsLock::unlock";
  name = λ l. "mcs";
}

-- The `lock` and `unlock` of McsLock that take the caller's node.
abbrev pub mcs_lock_node : ℕ → McsLock → Outcome McsLock
mcs_lock_node node l = not_built Module.spinlocks "McsLock::lock(Node&)"

abbrev pub mcs_unlock_node : ℕ → McsLock → Outcome McsLock
mcs_unlock_node node l = not_built Module.spinlocks "McsLock::unlock(Node&)"
