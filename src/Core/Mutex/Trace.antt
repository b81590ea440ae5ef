-- ===== src/Core/Mutex/Trace.antt =====
-- Any calls that threads make on one Mutex, against a lock with an owner, or none.
use paracore.Base.{ℕ, ◌≡◌, refl, sym, Bool, Option, List, [], ◌∷◌}
use paracore.Core.Status.{Errno, IsErrno}
use paracore.Core.Outcome.{Outcome, ◌>>=◌, bind-cong}
use paracore.Core.Mutex
use paracore.Core.Mutex.{Pthread, ErrorChecking}
use paracore.Core.Mutex.Checked.{
  lock_contract, try_lock_contract, unlock_contract, lock-contract, try_lock-contract,
  unlock-contract,
}
use paracore.Sync.Lockable.{Lockable, Call, answered}

-- What the calling thread can do with a Mutex.
abbrev pub mutex_of : Errno → (p : Pthread) → ℕ → Lockable p.Mutex
mutex_of os p t = record {
  lock = Mutex.lock os p t;
  try_lock = Mutex.try_lock os p t;
  unlock = Mutex.unlock os p t;
  name = λ m. "";
}

-- The same with a lock that is its owner, or none.
abbrev pub owned : Errno → ℕ → Lockable (Option ℕ)
owned os t = record {
  lock = lock_contract os t;
  try_lock = λ o. try_lock_contract t o;
  unlock = unlock_contract os t;
  name = λ o. "";
}

-- The answers of the `try_lock`s in a sequence of calls of threads, and the lock after them.
unfoldable pub run {ℓ} :
    {L : Type ℓ} → (ℕ → Lockable L) → List (ℕ × Call) → L → Outcome (List Bool × L)
run ops [] l = Outcome.returns ([], l)
run ops ((t, Call.lock) ∷ ks) l = (ops t).lock l >>= λ l'. run ops ks l'
run ops ((t, Call.unlock) ∷ ks) l = (ops t).unlock l >>= λ l'. run ops ks l'
run ops ((t, Call.try_lock) ∷ ks) l = (ops t).try_lock l >>= λ r. run ops ks r.1 >>= answered r.0

-- The lock after the calls, seen as its owner.
abbrev pub with_owner :
    {M : Type 0} → (M → Option ℕ) → List Bool × M → Outcome (List Bool × Option ℕ)
with_owner holder r = Outcome.returns (r.0, holder r.1)

module _ {os : Errno} {p : Pthread} {holder : p.Mutex → Option ℕ} (codes : IsErrno os)
    (posix : ErrorChecking os p holder) where
  answered-with_owner :
      (b : Bool) (o : Outcome (List Bool × p.Mutex))
      → ((o >>= answered b) >>= with_owner holder) ≡ ((o >>= with_owner holder) >>= answered b)
  answered-with_owner b o =
      bind-cong o (answered b) (with_owner holder) (with_owner holder) (answered b) (λ r. refl)

  -- Any sequence of `lock`, `try_lock` and `unlock` by any threads on one Mutex in the debug build,
  -- on a mutex that checks its errors as POSIX documents, gives what a lock with an owner gives:
  -- the same answers of `try_lock`, the same owner at the end, the same wait for a lock that
  -- another thread holds, and the same abort with the text for a recursive lock or a foreign
  -- unlock.
  pub mutex-run :
      (ks : List (ℕ × Call)) (m : p.Mutex)
      → (run (mutex_of os p) ks m >>= with_owner holder) ≡ run (owned os) ks (holder m)
  unfolding run
  mutex-run [] m = refl
  mutex-run ((t, Call.lock) ∷ ks) m = rw (sym (lock-contract codes posix t m)) (
      bind-cong (Mutex.lock os p t m) (run (mutex_of os p) ks) (with_owner holder)
        (λ m'. Outcome.returns (holder m')) (run (owned os) ks) (mutex-run ks))
  mutex-run ((t, Call.unlock) ∷ ks) m = rw (sym (unlock-contract codes posix t m)) (
      bind-cong (Mutex.unlock os p t m) (run (mutex_of os p) ks) (with_owner holder)
        (λ m'. Outcome.returns (holder m')) (run (owned os) ks) (mutex-run ks))
  mutex-run ((t, Call.try_lock) ∷ ks) m = rw (sym (try_lock-contract codes posix t m)) (
      bind-cong (Mutex.try_lock os p t m) (λ r. run (mutex_of os p) ks r.1 >>= answered r.0)
        (with_owner holder) (λ r. Outcome.returns (r.0, holder r.1))
        (λ r. run (owned os) ks r.1 >>= answered r.0)
        (λ r. rw (answered-with_owner r.0 (run (mutex_of os p) ks r.1), mutex-run ks r.1)))
