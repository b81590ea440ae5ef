-- ===== src/Sync/AnyLock.antt =====
-- `AnyLock` of sync/spinlock.hpp: a lock chosen at run time, behind one virtual call.
use paracore.Base.{Bool, String}
use paracore.Core.Outcome.{Outcome, ◌>>=◌}
use paracore.Sync.Lockable.{Lockable}

-- The object behind `impl_`: a `Model<L>`, whose table of virtual functions is `ops`.
pub record AnyLock : Type 1 where
  pub Lock : Type 0
  pub ops : Lockable Lock
  pub inner : Lock

-- `AnyLock::of<L>`, of a lock that its arguments have made.
abbrev pub of : {L : Type 0} → Lockable L → L → AnyLock
of ops l = record { Lock = _; ops = ops; inner = l }

abbrev pub lock : AnyLock → Outcome AnyLock
lock a = a.ops.lock a.inner >>= λ l. Outcome.returns (of a.ops l)

abbrev pub try_lock : AnyLock → Outcome (Bool × AnyLock)
try_lock a = a.ops.try_lock a.inner >>= λ r. Outcome.returns (r.0, of a.ops r.1)

abbrev pub unlock : AnyLock → Outcome AnyLock
unlock a = a.ops.unlock a.inner >>= λ l. Outcome.returns (of a.ops l)

abbrev pub name : AnyLock → String
name a = a.ops.name a.inner

-- `static_assert(Lockable<AnyLock>)`
abbrev pub any_lock : Lockable AnyLock
any_lock = record { lock = lock; try_lock = try_lock; unlock = unlock; name = name }
