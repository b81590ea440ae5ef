-- ===== src/Suite/Locks/Orders.antt =====
-- What the programs do in every order of the steps of their threads.
use paracore.Base.{
  ℕ, ◌+◌, ◌≤◌, ◌≡◌, refl, Bool, true, false, not, ◌&&◌, ◌||◌, Option, none, some, List, [], ◌∷◌,
  ◌==◌, arith,
}
use paracore.Core.Status.{Errno}
use paracore.Core.Outcome.{Outcome}
use paracore.Suite.Programs.{Statement, Program, step_main, step_child, Runs}
use paracore.Suite.Programs.Explore.{left, always, always-Runs, Runs-left}
use paracore.Suite.Locks.{Test, code_of, Hung, code_of_canary}

abbrev returned : Outcome Program → Bool
returned (Outcome.returns s) = true
returned o = false

abbrev aborted : Outcome Program → Bool
aborted (Outcome.aborts m) = true
aborted o = false

abbrev none_left : List Statement → Bool
none_left [] = true
none_left (c ∷ rest) = false

-- A thread stands at a `join`, or at a `lock`.
abbrev at_join : List Statement → Bool
at_join (Statement.join ∷ rest) = true
at_join cs = false

abbrev at_lock : List Statement → Bool
at_lock (Statement.lock ∷ rest) = true
at_lock cs = false

abbrev owned_by_main : Option ℕ → Bool
owned_by_main none = false
owned_by_main (some t) = t == 1

module _ (os : Errno) where
  -- A thread can make a step.
  abbrev goes_on : Program → Bool
  goes_on s = returned (step_main os s) || returned (step_child os s)

  abbrev aborts_next : Program → Bool
  aborts_next s = aborted (step_main os s) || aborted (step_child os s)

  -- No assertion has failed, the next calls do not abort, and a thread can make a step unless both
  -- are through.
  abbrev pub is_well : Program → Bool
  is_well s =
      not s.failed
      && (not (aborts_next s) && (goes_on s || (none_left s.main && none_left s.child)))

  -- `main` is not through, the next calls do not abort, and a thread can make a step unless `main`
  -- waits in the `join` for a thread that waits for the lock of `main`.
  abbrev pub is_hung : Program → Bool
  is_hung s =
      not (none_left s.main)
      && (not (aborts_next s)
          && (goes_on s || (at_join s.main && (at_lock s.child && owned_by_main s.owner))))

  tests_searched : (p : Test) → always os (left (code_of p)) is_well (code_of p) ≡ true
  unfolding always
  tests_searched Test.locks_and_tries = refl
  tests_searched Test.catches = refl
  tests_searched Test.tries_held = refl
  tests_searched Test.with_guard = refl

  canaries_searched :
      (p : Hung) → always os (left (code_of_canary p)) is_hung (code_of_canary p) ≡ true
  unfolding always
  canaries_searched Hung.never_unlocked = refl
  canaries_searched Hung.never_guarded = refl

-- The three tests of the Mutex in test_core.cpp, and canary_raii.cpp with the `lock_guard` that its
-- comment asks to try, end well in every order of the steps of their threads: in each state no
-- assertion has failed, no next call aborts, and some thread can go on unless both are through; and
-- there are at most as many steps as statements.
pub tests_pass :
    (os : Errno) (p : Test) {k : ℕ} {s : Program}
    → Runs os k (code_of p) s
    → (is_well os s ≡ true) × (k + left s ≤ left (code_of p))
tests_pass os p {k} {s} r =
    let bound : k + left s ≤ left (code_of p) = Runs-left os r in
    (always-Runs os _ (is_well os) (tests_searched os p) r (omega (arith, bound)), bound)

-- canary_hang.cpp and canary_raii.cpp always hang, in every order of the steps of their threads: in
-- no state is `main` through or does a next call abort, and the only states in which no thread can
-- go on are those where `main` waits for the other thread, which waits for the lock that `main`
-- holds; and there are at most as many steps as statements.
pub canaries_hang :
    (os : Errno) (p : Hung) {k : ℕ} {s : Program}
    → Runs os k (code_of_canary p) s
    → (is_hung os s ≡ true) × (k + left s ≤ left (code_of_canary p))
canaries_hang os p {k} {s} r =
    let bound : k + left s ≤ left (code_of_canary p) = Runs-left os r in
    (always-Runs os _ (is_hung os) (canaries_searched os p) r (omega (arith, bound)), bound)
