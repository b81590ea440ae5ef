-- ===== src/Core/Mutex/Checked.antt =====
-- The debug build's Mutex against its contract: a lock with an owner, or none.
use paracore.Base.{
  ℕ, ◌≡◌, ◌≢◌, Bool, true, false, Option, none, some, inl, inr, sym, ap, ◌∙◌, ◌==◌, if◌then◌else◌,
  ==_ne, ==_refl, Option-cases, ==→eq, ==→ne, Bool-cases, arith,
}
use paracore.Core.Status.{Errno, IsErrno}
use paracore.Core.Outcome.{Message, Outcome, ◌>>=◌}
use paracore.Core.Mutex
use paracore.Core.Mutex.{Pthread, ErrorChecking, mutex_fatal}

-- The contract. Locking again, and unlocking what one does not hold, end the program with a text
-- that says so.
abbrev pub recursive_lock : Errno → Message
recursive_lock os =
    Message.mutex_failed "lock" os.edeadlk "recursive lock — the thread already holds this lock"

abbrev pub foreign_unlock : Errno → Message
foreign_unlock os =
    Message.mutex_failed "unlock" os.eperm "unlock from a thread that does not hold the lock"

abbrev pub lock_contract : Errno → ℕ → Option ℕ → Outcome (Option ℕ)
lock_contract os t none = Outcome.returns (some t)
lock_contract os t (some u) = if u == t then Outcome.aborts (recursive_lock os) else Outcome.blocks

abbrev pub try_lock_contract : ℕ → Option ℕ → Outcome (Bool × Option ℕ)
try_lock_contract t none = Outcome.returns (true, some t)
try_lock_contract t (some u) = Outcome.returns (false, some u)

abbrev pub unlock_contract : Errno → ℕ → Option ℕ → Outcome (Option ℕ)
unlock_contract os t none = Outcome.aborts (foreign_unlock os)
unlock_contract os t (some u) =
    if u == t then Outcome.returns none else Outcome.aborts (foreign_unlock os)

none-ne-some : {a : ℕ} → none ≢ some a
none-ne-some e = cc

some-eq : {a b : ℕ} → some a ≡ some b → a ≡ b
some-eq e = ground arith

fatal_recursive :
    (os : Errno) {A : Type 0}
    → mutex_fatal {A = A} os "lock" os.edeadlk ≡ Outcome.aborts (recursive_lock os)
unfolding mutex_fatal
fatal_recursive os = rw (==_refl os.edeadlk)

fatal_foreign :
    (os : Errno) {A : Type 0}
    → IsErrno os
    → mutex_fatal {A = A} os "unlock" os.eperm ≡ Outcome.aborts (foreign_unlock os)
unfolding mutex_fatal
fatal_foreign os codes =
    rw (==_ne os.eperm os.edeadlk (λ e. codes.edeadlk-eperm (sym e)), ==_refl os.eperm)

module _ {os : Errno} {p : Pthread} {holder : p.Mutex → Option ℕ} (codes : IsErrno os)
    (posix : ErrorChecking os p holder) where
  abbrev owner : p.Mutex → Outcome (Option ℕ)
  owner m = Outcome.returns (holder m)

  -- `Mutex::lock` in the debug build, on a mutex that checks its errors as POSIX documents, takes a
  -- free lock, aborts with the text for a recursive lock if the caller holds it, and blocks if
  -- another thread does.
  pub lock-contract :
      (t : ℕ) (m : p.Mutex) → (Mutex.lock os p t m >>= owner) ≡ lock_contract os t (holder m)
  unfolding Mutex.lock
  lock-contract t m = elim (Option-cases (holder m)) [
    | inl free ↦ let (m', e, held) = posix.lock_free t m free in rw (e, free, held, Mutex.lock)
    | inr (u, held) ↦ elim (Bool-cases (u == t)) [
      | inl mine ↦ rw (
        posix.lock_own t m (held ∙ ap some (==→eq u t mine)),
        Mutex.lock,
        held,
        mine,
        ==_ne os.edeadlk 0 codes.edeadlk_pos,
        fatal_recursive os,
      )
      | inr theirs ↦
          rw (posix.lock_held t u m held (λ e. ==→ne u t theirs (sym e)), Mutex.lock, held, theirs)
    ]
  ]

  -- `Mutex::try_lock` in the debug build, on a mutex that checks its errors as POSIX documents,
  -- never blocks and never aborts: it takes a free lock, and answers false for a held one, also
  -- when the caller holds it.
  pub try_lock-contract :
      (t : ℕ) (m : p.Mutex)
      → (Mutex.try_lock os p t m >>= λ (b, m'). Outcome.returns (b, holder m'))
        ≡ try_lock_contract t (holder m)
  unfolding Mutex.try_lock
  try_lock-contract t m = elim (Option-cases (holder m)) [
    | inl free ↦ let (m', e, held) = posix.trylock_free t m free in rw (e, free, held)
    | inr (u, held) ↦
        rw (posix.trylock_held t u m held, ==_ne os.ebusy 0 codes.ebusy_pos, ==_refl os.ebusy, held)
  ]

  -- `Mutex::unlock` in the debug build, on a mutex that checks its errors as POSIX documents, frees
  -- the lock for its holder, and aborts with the text for a foreign unlock for anyone else, also
  -- when nobody holds it.
  pub unlock-contract :
      (t : ℕ) (m : p.Mutex) → (Mutex.unlock os p t m >>= owner) ≡ unlock_contract os t (holder m)
  unfolding Mutex.unlock
  unlock-contract t m = elim (Option-cases (holder m)) [
    | inl free ↦ rw (
      posix.unlock_other t m (λ e. none-ne-some (sym free ∙ e)),
      free,
      ==_ne os.eperm 0 codes.eperm_pos,
      fatal_foreign os codes,
    )
    | inr (u, held) ↦ elim (Bool-cases (u == t)) [
      | inl mine ↦
          let (m', e, freed) = posix.unlock_own t m (held ∙ ap some (==→eq u t mine)) in
          rw (e, held, mine, freed)
      | inr theirs ↦ rw (
        posix.unlock_other t m (λ e. ==→ne u t theirs (some-eq (sym held ∙ e))),
        held,
        theirs,
        ==_ne os.eperm 0 codes.eperm_pos,
        fatal_foreign os codes,
      )
    ]
  ]
