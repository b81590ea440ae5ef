-- ===== src/Runner/Main/Exit.antt =====
-- When the exit code of the test runner is 0, also when a test ends the process of the runner.
use paracore.Base.{
  ℕ, suc, ◌⊎◌, inl, inr, ◌+◌, ◌-◌, ◌^◌, ◌≤◌, ◌<◌, ◌≡◌, ◌↔◌, refl, ap, subst, String, Bool, true,
  false, Bool-cases, Option, List, [], ◌∷◌, length, arith,
}
use paracore.Runner.{
  Counts, Settings, defaults, selected, exit_code, Request, arguments, environment,
}
use paracore.Runner.Rounds.{counted}
use paracore.Runner.Verdict.{nothing}
use paracore.Runner.Main.{Test, Progress, run_rounds, run_suite, main}
use paracore.Runner.Main.Outcomes.{Passed, SomeSelected, AllPassed}
use paracore.Runner.Main.Rounds.{NoneExits0, Stopped, Ends, run_rounds-Ends}

-- Each test has as many rounds as it may need, and no call in them ends the process with 0.
abbrev pub Enough : Settings → List Test → Type 0
Enough o [] = Unit
Enough o (t ∷ ts) = (o.repeat ≤ length t.attempts) × NoneExits0 o t.attempts × Enough o ts

test-Ends :
    (o : Settings) (t : Test) (c : Counts)
    → 0 < o.repeat
    → o.repeat < 2 ^ 32 - 1
    → o.repeat ≤ length t.attempts
    → NoneExits0 o t.attempts
    → Ends o c o.repeat t.attempts (run_rounds o 0 t.attempts c)
test-Ends o t c pos few long h =
    let k = o.repeat - 1 in
    let split : suc k ≡ o.repeat = omega (arith, pos) in
    subst (λ n. Ends o c n t.attempts (run_rounds o 0 t.attempts c)) split
      (run_rounds-Ends o t.attempts k 0 c (omega (arith, split)) few (omega (arith, long, split)) h)

-- No test has failed.
abbrev Clean : Counts → Type 0
Clean c = c.failed ≡ 0

-- Some test has been counted.
abbrev Counted : Counts → Type 0
Counted c = 0 < c.passed + c.failed

module _ (find : (name filter : String) → Bool) (o : Settings) where
  -- How the outer loop ends that has the tests `ts` to go.
  abbrev SuiteEnds : Counts → List Test → Progress → Type 0
  SuiteEnds c ts p =
      ((c' : Counts) × (p ≡ Progress.counts c')
        × (Clean c' ↔ (Clean c × AllPassed find o ts))
        × (Counted c' ↔ (Counted c ⊎ SomeSelected find o ts)))
      ⊎ (Stopped p × (AllPassed find o ts → ⊥))

  -- A test before the others takes the counters from `c` to `c1`.
  test-SuiteEnds :
      (t : Test) (ts : List Test) (c c1 : Counts) (p : Progress)
      → Clean c1 ↔ (Clean c × (selected find o t.entry ≡ true → Passed o o.repeat t.attempts))
      → Counted c1 ↔ (Counted c ⊎ (selected find o t.entry ≡ true))
      → SuiteEnds c1 ts p
      → SuiteEnds c (t ∷ ts) p
  test-SuiteEnds t ts c c1 p clean some (inr (q, n)) = inr (q, λ z. n z.1)
  test-SuiteEnds t ts c c1 p (to, from) some (inl (c', e, (clean_to, clean_from), some')) = inl (
    c',
    e,
    (
      (λ z. let (a, rest) = clean_to z in let (b, first) = to a in (b, (first, rest))),
      λ z. clean_from (from (z.0, z.1.0), z.1.1),
    ),
    ((λ z. grind (arith, some, some')), λ z. grind (arith, some, some')),
  )

  suite-Stopped :
      (t : Test) (ts : List Test) (c : Counts) (p : Progress)
      → selected find o t.entry ≡ true
      → run_rounds o 0 t.attempts c ≡ p
      → Stopped p
      → Stopped (run_suite find o (t ∷ ts) c)
  unfolding run_suite
  suite-Stopped t ts c (Progress.counts c') e q h = absurd h
  suite-Stopped t ts c (Progress.exits code) e q h = rw (e, q) h
  suite-Stopped t ts c (Progress.killed sig) e q h = rw (e, q) tt
  suite-Stopped t ts c Progress.waits e q h = rw (e, q) tt

  run_suite-next :
      (t : Test) (ts : List Test) (c c1 : Counts)
      → selected find o t.entry ≡ true
      → run_rounds o 0 t.attempts c ≡ Progress.counts c1
      → run_suite find o (t ∷ ts) c ≡ run_suite find o ts c1
  unfolding run_suite
  run_suite-next t ts c c1 e q = rw (e, q) refl

  run_suite-skip :
      (t : Test) (ts : List Test) (c : Counts)
      → selected find o t.entry ≡ false
      → run_suite find o (t ∷ ts) c ≡ run_suite find o ts (record c { skipped = c.skipped + 1 })
  unfolding run_suite
  run_suite-skip t ts c e = rw e refl

  run_suite-SuiteEnds :
      (ts : List Test) (c : Counts)
      → 0 < o.repeat
      → o.repeat < 2 ^ 32 - 1
      → Enough o ts
      → SuiteEnds c ts (run_suite find o ts c)
  unfolding run_suite
  run_suite-SuiteEnds [] c pos few h =
      inl (c, refl, ((λ z. (z, tt)), λ z. z.0), (inl, λ z. ground arith))
  run_suite-SuiteEnds (t ∷ ts) c pos few (long, ends, h) =
      elim (Bool-cases (selected find o t.entry)) [
        | inr e ↦
            let c1 : Counts = record c { skipped = c.skipped + 1 } in
            rw (run_suite-skip t ts c e) (
              test-SuiteEnds t ts c c1 (run_suite find o ts c1) ((λ z. (z, λ y. cc)), λ z. z.0)
                (inl, λ z. ground arith) (run_suite-SuiteEnds ts c1 pos few h))
        | inl e ↦ elim (test-Ends o t c pos few long ends) [
          | inl (q, passes) ↦
              let c1 = counted true c in
              rw (run_suite-next t ts c c1 e q) (
                test-SuiteEnds t ts c c1 (run_suite find o ts c1)
                  ((λ z. (z, λ y. passes)), λ z. z.0) ((λ z. inr e), λ z. omega arith)
                  (run_suite-SuiteEnds ts c1 pos few h))
          | inr (n, inl q) ↦
              let c1 = counted false c in
              rw (run_suite-next t ts c c1 e q) (
                test-SuiteEnds t ts c c1 (run_suite find o ts c1)
                  ((λ z. absurd (omega (arith, z))), λ z. absurd (n (z.1 e)))
                  ((λ z. inr e), λ z. omega arith) (run_suite-SuiteEnds ts c1 pos few h))
          | inr (n, inr q) ↦
              inr (suite-Stopped t ts c (run_rounds o 0 t.attempts c) e refl q, λ z. n (z.0 e))
        ]
      ]

code_zero : (k : ℕ) → Progress.exits k ≡ Progress.exits 0 → k ≡ 0
code_zero k e = ground arith

exit_code-zero : (c : Counts) → (exit_code c ≡ 0) ↔ (Clean c × Counted c)
unfolding exit_code
exit_code-zero c = ((λ h. ground arith), λ h. ground arith)

-- What `main` makes of the end of its loops.
abbrev pub last : Progress → Progress
last p = elim p [
  | Progress.counts c ↦ Progress.exits (exit_code c)
  | Progress.exits code ↦ Progress.exits code
  | Progress.killed sig ↦ Progress.killed sig
  | Progress.waits ↦ Progress.waits
]

last-zero : (p : Progress) → Stopped p → last p ≡ Progress.exits 0 → ⊥
last-zero (Progress.counts c) h e = h
last-zero (Progress.exits code) h e = h (code_zero code e)
last-zero (Progress.killed sig) h e = cc
last-zero Progress.waits h e = cc

pub main-last :
    (find : (name filter : String) → Bool) (strtoul : String → ℕ) (argv : List String)
    (env : Option String) (tests : List Test) (asked o : Settings)
    → arguments strtoul argv defaults ≡ Request.run asked
    → environment strtoul env asked ≡ o
    → main find strtoul argv env tests ≡ last (run_suite find o tests nothing)
unfolding main
main-last find strtoul argv env tests asked o parsed set = rw (parsed, main, set) refl

last_zero_iff :
    (find : (name filter : String) → Bool) (o : Settings) (tests : List Test) (p : Progress)
    → SuiteEnds find o nothing tests p
    → (last p ≡ Progress.exits 0) ↔ (SomeSelected find o tests × AllPassed find o tests)
last_zero_iff find o tests p (inr (q, n)) = ((λ z. absurd (last-zero p q z)), λ z. absurd (n z.1))
last_zero_iff find o tests p (inl (c, e, (clean_to, clean_from), (some_to, some_from))) =
    let (to, from) = exit_code-zero c in
    rw e (
      (λ z.
          let (clean, counted) = to (code_zero (exit_code c) z) in
          (
            elim (some_to counted) [ inl y ↦ absurd (omega (arith, y)) | inr y ↦ y ],
            (clean_to clean).1,
          )),
      λ z. ap Progress.exits (from (clean_from (refl, z.1), some_from (inr z.0))),
    )

-- The test runner as a whole: when the command line asks for a run with 1 to 2 ^ 32 - 2 rounds per
-- test, after the variable has had its say, the tests have as many rounds as that, and under
-- `--no-fork` no test ends the process with 0 itself, the process exits with 0 exactly when some
-- test is selected and every selected test passes in all its rounds. A round passes when
-- `run_forked` says so, and under `--no-fork` when the call returns; also rounds that never end, or
-- in which the process exits or is killed, are rounds that do not pass.
pub main_zero :
    (find : (name filter : String) → Bool) (strtoul : String → ℕ) (argv : List String)
    (env : Option String)
    → (tests : List Test) (asked o : Settings) → arguments strtoul argv defaults ≡ Request.run asked
    → environment strtoul env asked ≡ o
    → 0 < o.repeat
    → o.repeat < 2 ^ 32 - 1
    → Enough o tests
    → (main find strtoul argv env tests ≡ Progress.exits 0)
      ↔ (SomeSelected find o tests × AllPassed find o tests)
main_zero find strtoul argv env tests asked o parsed set pos few h =
    rw (main-last find strtoul argv env tests asked o parsed set) (
      last_zero_iff find o tests (run_suite find o tests nothing)
        (run_suite-SuiteEnds find o tests nothing pos few h))
