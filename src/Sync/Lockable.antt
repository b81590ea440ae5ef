-- ===== src/Sync/Lockable.antt =====
-- sync/lockable.hpp: what a lock offers, and a client that makes any calls of it.
use paracore.Base.{Bool, List, [], ◌∷◌, String}
use paracore.Core.Outcome.{Outcome, ◌>>=◌}

-- `Lockable` and `NamedLock`: the operations of a lock whose members are an `L`.
pub record Lockable {ℓ} (L : Type ℓ) : Type ℓ where
  pub lock : L → Outcome L
  pub try_lock : L → Outcome (Bool × L)
  pub unlock : L → Outcome L
  pub name : L → String

pub data Call : Type 0 where
  lock try_lock unlock : Call

abbrev pub answered {ℓ} : {L : Type ℓ} → Bool → List Bool × L → Outcome (List Bool × L)
answered b rest = Outcome.returns (b ∷ rest.0, rest.1)

-- The answers of the `try_lock`s in a sequence of calls, and the lock after them.
unfoldable pub run {ℓ} : {L : Type ℓ} → Lockable L → List Call → L → Outcome (List Bool × L)
run ops [] l = Outcome.returns ([], l)
run ops (Call.lock ∷ ks) l = ops.lock l >>= λ l'. run ops ks l'
run ops (Call.unlock ∷ ks) l = ops.unlock l >>= λ l'. run ops ks l'
run ops (Call.try_lock ∷ ks) l = ops.try_lock l >>= λ r. run ops ks r.1 >>= answered r.0
