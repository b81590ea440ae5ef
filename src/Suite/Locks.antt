-- ===== src/Suite/Locks.antt =====
-- The tests of the Mutex in tests/test_core.cpp, and the canaries tests/canary_hang.cpp and
-- tests/canary_raii.cpp.
pub mod Orders
use paracore.Base.{Bool, true, false, [], ◌∷◌, if◌then◌else◌}
use paracore.Suite.Programs.{Statement, Program, program}

-- `mutex_lock_unlock_trylock`
abbrev pub mutex_lock_unlock_trylock : Program
mutex_lock_unlock_trylock =
    program (Statement.lock ∷ Statement.unlock ∷ Statement.assert_try_lock ∷ Statement.unlock ∷ [])
      []

-- `lock_guard_releases_even_on_exception`
abbrev pub lock_guard_releases_even_on_exception : Program
lock_guard_releases_even_on_exception =
    program
      (Statement.guard ∷ Statement.throws ∷ Statement.end_scope ∷ Statement.handler
        ∷ Statement.assert_try_lock ∷ Statement.unlock ∷ [])
      []

-- `trylock_on_held_lock_returns_false`
abbrev pub trylock_on_held_lock_returns_false : Program
trylock_on_held_lock_returns_false =
    program
      (Statement.lock ∷ Statement.start ∷ Statement.join ∷ Statement.assert_noted ∷ Statement.unlock
        ∷ [])
      (Statement.try_lock_or_note ∷ [])

-- canary_hang.cpp
abbrev pub canary_hang : Program
canary_hang =
    program
      (Statement.lock
        ∷ Statement.start
        ∷ Statement.join
        ∷ Statement.print "this line must never be reached\n"
        ∷ [])
      (Statement.lock ∷ Statement.unlock ∷ [])

-- canary_raii.cpp as it is, and with the `lock_guard` that its comment asks to try.
abbrev pub canary_raii : (with_guard : Bool) → Program
canary_raii with_guard =
    program
      ((if with_guard then Statement.guard else Statement.lock)
        ∷ Statement.throws
        ∷ (if with_guard then Statement.end_scope else Statement.unlock)
        ∷ Statement.handler
        ∷ Statement.print "caught: something went wrong in the middle of the critical section\n"
        ∷ Statement.print "and now the lock is held forever. the next thread hangs.\n"
        ∷ Statement.start
        ∷ Statement.join
        ∷ Statement.print "this line must never be reached\n"
        ∷ [])
      (Statement.lock ∷ Statement.unlock ∷ [])

-- The programs that are to end, with every assertion held.
pub data Test : Type 0 where
  locks_and_tries catches tries_held with_guard : Test

abbrev pub code_of : Test → Program
code_of Test.locks_and_tries = mutex_lock_unlock_trylock
code_of Test.catches = lock_guard_releases_even_on_exception
code_of Test.tries_held = trylock_on_held_lock_returns_false
code_of Test.with_guard = canary_raii true

-- The programs that are to hang.
pub data Hung : Type 0 where
  never_unlocked never_guarded : Hung

abbrev pub code_of_canary : Hung → Program
code_of_canary Hung.never_unlocked = canary_hang
code_of_canary Hung.never_guarded = canary_raii false
