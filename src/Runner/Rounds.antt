-- ===== src/Runner/Rounds.antt =====
-- The inner loop of `main` in tests/para_test.cpp: the runs of one test.
use paracore.Base.{
  ℕ, zero, suc, ◌+◌, ◌-◌, ◌^◌, ◌≤◌, ◌<◌, ◌≡◌, refl, Bool, true, false, none, some, List, [], ◌∷◌,
  length, arith,
}
use paracore.Runner.{Outcome, Counts, test_rounds}

abbrev passes : Outcome → Bool
passes Outcome.pass = true
passes _ = false

-- The first `k` runs pass.
abbrev pub all_pass : ℕ → List Outcome → Bool
all_pass zero os = true
all_pass (suc k) [] = false
all_pass (suc k) (Outcome.pass ∷ os) = all_pass k os
all_pass (suc k) (o ∷ os) = false

-- What a test adds to the counters.
abbrev pub counted : Bool → Counts → Counts
counted true c = record c { passed = c.passed + 1 }
counted false c = record c { failed = c.failed + 1 }

over :
    (repeat r : ℕ) (os : List Outcome) (c : Counts)
    → repeat ≤ r
    → test_rounds repeat r os c ≡ some c
unfolding test_rounds
over repeat r [] c h = ground arith
over repeat r (o ∷ os) c h = ground arith

rounds_from :
    (k repeat r : ℕ) (os : List Outcome) (c : Counts)
    → r + suc k ≡ repeat
    → repeat < 2 ^ 32 - 1
    → suc k ≤ length os
    → test_rounds repeat r os c ≡ some (counted (all_pass (suc k) os) c)
unfolding test_rounds
rounds_from k repeat r [] c e few long = absurd (omega arith)
rounds_from zero repeat r (Outcome.pass ∷ os) c e few long =
    ground (arith, over repeat (r + 1) os (record c { passed = c.passed + 1 }))
rounds_from (suc k) repeat r (Outcome.pass ∷ os) c e few long =
    ground (arith, rounds_from k repeat (r + 1) os c)
rounds_from k repeat r (Outcome.fail ∷ os) c e few long =
    ground (arith, over repeat (repeat + 1) os (record c { failed = c.failed + 1 }))
rounds_from k repeat r (Outcome.timeout ∷ os) c e few long =
    ground (arith, over repeat (repeat + 1) os (record c { failed = c.failed + 1 }))
rounds_from k repeat r (Outcome.signal n ∷ os) c e few long =
    ground (arith, over repeat (repeat + 1) os (record c { failed = c.failed + 1 }))

-- A test is counted once, as passed if its first `repeat` runs pass, if `repeat` is neither 0 nor the
-- largest number.
pub test_rounds_lem :
    (repeat : ℕ) (os : List Outcome) (c : Counts)
    → 0 < repeat
    → repeat < 2 ^ 32 - 1
    → repeat ≤ length os
    → test_rounds repeat 0 os c ≡ some (counted (all_pass repeat os) c)
test_rounds_lem zero os c pos few long = elim pos [ ]
test_rounds_lem (suc k) os c pos few long = rounds_from k (suc k) 0 os c (omega arith) few long

-- No round passes.
abbrev NonePass : List Outcome → Type 0
NonePass [] = Unit
NonePass (o ∷ os) = (passes o ≡ false) × NonePass os

-- With 2 ^ 32 - 1 rounds per test, which `--repeat` admits, the loop over the rounds of a test does
-- not end while no round passes, however many there are: `++r` after `r = repeat` begins again from
-- 0.
pub rounds_never_end :
    (os : List Outcome) (c : Counts) → NonePass os → test_rounds (2 ^ 32 - 1) 0 os c ≡ none
unfolding test_rounds
rounds_never_end [] c h = refl
rounds_never_end (Outcome.pass ∷ os) c h = cc
rounds_never_end (Outcome.fail ∷ os) c h =
    rounds_never_end os (record c { failed = c.failed + 1 }) h.1
rounds_never_end (Outcome.timeout ∷ os) c h =
    rounds_never_end os (record c { failed = c.failed + 1 }) h.1
rounds_never_end (Outcome.signal n ∷ os) c h =
    rounds_never_end os (record c { failed = c.failed + 1 }) h.1
