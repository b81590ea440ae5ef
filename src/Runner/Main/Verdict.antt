-- ===== src/Runner/Main/Verdict.antt =====
-- The counters of `main` of tests/para_test.cpp after its loops, and what it then returns.
use paracore.Base.{
  ℕ, ◌+◌, ◌-◌, ◌^◌, ◌<◌, ◌≡◌, ◌↔◌, refl, ◌∙◌, String, Bool, not, ◌&&◌, List, [], ◌∷◌, if◌then◌else◌,
}
use paracore.Runner.{Counts, Settings, Case, selected, exit_code}
use paracore.Runner.Rounds.{all_pass}
use paracore.Runner.Verdict.{nothing, how_many, case_passes, outcomes_verdict}
use paracore.Runner.Main.{Test, Progress, run_suite}
use paracore.Runner.Main.Outcomes.{
  results, Ready, cases, case_of, Runs-cases, run_suite-run_tests, SomeSelected, AllPassed,
  selected-cases, passed-cases,
}

module _ (find : (name filter : String) → Bool) (o : Settings) where
  -- All the rounds of a test pass.
  abbrev pub test_passes : Test → Bool
  test_passes t = all_pass o.repeat (results o t.attempts)

  abbrev pub count : (Test → Bool) → List Test → ℕ
  count p [] = 0
  count p (t ∷ ts) = (if p t then 1 else 0) + count p ts

  count-cases :
      (p : Case → Bool) (ts : List Test)
      → how_many find o p (cases o ts) ≡ count (λ t. p (case_of o t)) ts
  count-cases p [] = refl
  count-cases p (t ∷ ts) = rw (count-cases p ts) refl

  -- With 1 to 2 ^ 32 - 2 rounds per test, and as many rounds of each test, each of which comes to
  -- an outcome, `main` comes to the end of its loops, having counted as passed, failed and skipped
  -- the selected tests of which every round passes, the selected tests of which some round does
  -- not, and the tests that are not selected; and it returns 0 exactly when some test is selected
  -- and every selected test passes in every round.
  pub verdict :
      (ts : List Test)
      → 0 < o.repeat
      → o.repeat < 2 ^ 32 - 1
      → Ready o ts
      → (c : Counts) × (run_suite find o ts nothing ≡ Progress.counts c)
        × (c.passed ≡ count (λ t. selected find o t.entry && test_passes t) ts)
        × (c.failed ≡ count (λ t. selected find o t.entry && not (test_passes t)) ts)
        × (c.skipped ≡ count (λ t. not (selected find o t.entry)) ts)
        × ((exit_code c ≡ 0) ↔ (SomeSelected find o ts × AllPassed find o ts))
  verdict ts pos few ready =
      let (c, counted, passed, failed, skipped, (to, from)) =
        outcomes_verdict find o (cases o ts) pos few (Runs-cases find o ts ready) in
      let (some_to, some_from) = selected-cases find o ts in
      let (all_to, all_from) = passed-cases find o ts ready in
      (
        c,
        rw (run_suite-run_tests find o ts nothing ready, counted) refl,
        passed ∙ count-cases (λ t. selected find o t.entry && case_passes find o t) ts,
        failed ∙ count-cases (λ t. selected find o t.entry && not (case_passes find o t)) ts,
        skipped ∙ count-cases (λ t. not (selected find o t.entry)) ts,
        (
          (λ h. let (a, b) = to h in (some_to a, all_to b)),
          λ h. from (some_from h.0, all_from h.1),
        ),
      )
