-- ===== src/Suite/Programs.antt =====
-- Programs of two threads and one Mutex, the statements of the tests and canaries. The Mutex is its
-- contract, a lock with an owner; `main` is thread 1 and the thread that it starts is thread 2.
pub mod Explore
use paracore.Base.{
  ℕ, suc, ◌≡◌, String, Bool, true, false, Option, none, some, List, [], ◌∷◌, ◌++◌, if◌then◌else◌,
}
use paracore.Core.Status.{Errno}
use paracore.Core.Outcome.{Outcome, ◌>>=◌}
use paracore.Core.Mutex.Checked.{lock_contract, try_lock_contract, unlock_contract}

pub data Statement : Type 0 where
  lock unlock : Statement  -- `m.lock()`, `m.unlock()`
  guard end_scope : Statement  -- `std::lock_guard g{m}`, and the end of its scope
  throws handler : Statement  -- `throw`, and where `catch` begins
  print : String → Statement
  start join : Statement  -- a `para::Thread`, and its destructor
  assert_try_lock : Statement  -- `PARA_ASSERT(m.try_lock())`
  try_lock_or_note : Statement  -- `if (!m.try_lock()) was_busy.store(true) else m.unlock()`
  assert_noted : Statement  -- `PARA_ASSERT(was_busy.load())`

-- The owner of `m`, whether a `lock_guard` of `main` holds it, the flag, whether an assertion has
-- failed, what is printed, and what the threads have yet to do. The second thread begins when
-- `started` is set.
pub record Program : Type 0 where
  pub owner : Option ℕ
  pub guarded : Bool
  pub was_busy : Bool
  pub failed : Bool
  pub printed : List String
  pub main : List Statement
  pub started : Bool
  pub child : List Statement

-- A program before its first step.
abbrev pub program : (main child : List Statement) → Program
program main child = record {
  owner = none;
  guarded = false;
  was_busy = false;
  failed = false;
  printed = [];
  main = main;
  started = false;
  child = child;
}

-- What is left of a thread's statements from the handler on.
abbrev pub handled : List Statement → List Statement
handled [] = []
handled (Statement.handler ∷ rest) = rest
handled (c ∷ rest) = handled rest

module _ (os : Errno) where
  -- `m.unlock()` by thread `t`.
  abbrev released : ℕ → Program → Outcome Program
  released t s = unlock_contract os t s.owner >>= λ o. Outcome.returns (record s { owner = o })

  -- The statement, by thread `t`, with what the thread does after it already in the state. A throw
  -- runs the destructor of the guard, and a failed assertion ends the process.
  unfoldable pub execute : ℕ → Statement → Program → Outcome Program
  execute t Statement.lock s =
      lock_contract os t s.owner >>= λ o. Outcome.returns (record s { owner = o })
  execute t Statement.unlock s = released t s
  execute t Statement.guard s =
      lock_contract os t s.owner >>= λ o. Outcome.returns (record s { owner = o; guarded = true })
  execute t Statement.end_scope s = released t (record s { guarded = false })
  execute t Statement.throws s =
      let caught : Program = record s { main = handled s.main; guarded = false } in
      if s.guarded then released t caught else Outcome.returns caught
  execute t Statement.handler s = Outcome.returns s
  execute t (Statement.print text) s =
      Outcome.returns (record s { printed = s.printed ++ (text ∷ []) })
  execute t Statement.start s = Outcome.returns (record s { started = true })
  execute t Statement.join s = elim s.child [ [] ↦ Outcome.returns s | c ∷ rest ↦ Outcome.blocks ]
  execute t Statement.assert_try_lock s = try_lock_contract t s.owner >>= λ r.
      Outcome.returns (
        if r.0 then record s { owner = r.1 } else record s { failed = true; main = []; child = [] })
  execute t Statement.try_lock_or_note s = try_lock_contract t s.owner >>= λ r.
      (if r.0
        then released t (record s { owner = r.1 })
        else Outcome.returns (record s { was_busy = true }))
  execute t Statement.assert_noted s =
      Outcome.returns (if s.was_busy then s else record s { failed = true; main = []; child = [] })

  -- The next step of `main`, which has these statements left, and of the thread that it starts.
  unfoldable pub advance_main : List Statement → Program → Outcome Program
  unfolding execute
  advance_main [] s = Outcome.blocks
  advance_main (c ∷ rest) s = execute 1 c (record s { main = rest })

  unfoldable pub advance_child : List Statement → Program → Outcome Program
  unfolding execute
  advance_child [] s = Outcome.blocks
  advance_child (c ∷ rest) s =
      let next : Outcome Program = execute 2 c (record s { child = rest }) in
      if s.started then next else Outcome.blocks

  abbrev pub step_main : Program → Outcome Program
  step_main s = advance_main s.main s

  abbrev pub step_child : Program → Outcome Program
  step_child s = advance_child s.child s

  -- The states that a program reaches in `k` steps of its threads, whatever their order.
  pub data Runs : ℕ → Program → Program → Type 0 where
    done : {s : Program} → Runs 0 s s
    by_main :
        {k : ℕ} {s s' t : Program}
        → step_main s ≡ Outcome.returns s'
        → Runs k s' t
        → Runs (suc k) s t
    by_child :
        {k : ℕ} {s s' t : Program}
        → step_child s ≡ Outcome.returns s'
        → Runs k s' t
        → Runs (suc k) s t
