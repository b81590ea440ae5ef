-- ===== src/Runner/Verdict.antt =====
-- The outer loop of `main` in tests/para_test.cpp, and what `main` returns.
use paracore.Base.{
  ℕ, ◌+◌, ◌-◌, ◌^◌, ◌≤◌, ◌<◌, ◌≡◌, ◌↔◌, ◌⊎◌, refl, String, Bool, true, false, not, ◌&&◌, some, List,
  [], ◌∷◌, if◌then◌else◌, length, arith,
}
use paracore.Runner.{Counts, Settings, Case, selected, run_tests, exit_code}
use paracore.Runner.Rounds.{all_pass, counted, test_rounds_lem}

abbrev pub nothing : Counts
nothing = record { passed = 0; failed = 0; skipped = 0 }

module _ (find : (name filter : String) → Bool) (o : Settings) where
  -- All the runs of a test pass.
  abbrev pub case_passes : Case → Bool
  case_passes t = all_pass o.repeat t.runs

  abbrev pub how_many : (Case → Bool) → List Case → ℕ
  how_many p [] = 0
  how_many p (t ∷ ts) = (if p t then 1 else 0) + how_many p ts

  -- Each test has as many runs as the loop may ask for.
  abbrev pub Runs : List Case → Type 0
  Runs [] = Unit
  Runs (t ∷ ts) = (o.repeat ≤ length t.runs) × Runs ts

  -- The counters after a test.
  abbrev after_case : Bool → Bool → Counts → Counts
  after_case true passes c = counted passes c
  after_case false passes c = record c { skipped = c.skipped + 1 }

  run_tests-cons :
      (t : Case) (ts : List Case) (c : Counts)
      → 0 < o.repeat
      → o.repeat < 2 ^ 32 - 1
      → o.repeat ≤ length t.runs
      → run_tests find o (t ∷ ts) c
        ≡ run_tests find o ts (after_case (selected find o t.entry) (case_passes t) c)
  unfolding run_tests
  run_tests-cons t ts c pos few h = ground (arith, test_rounds_lem o.repeat t.runs c pos few h)

  run_tests-counts :
      (ts : List Case) (c : Counts)
      → 0 < o.repeat
      → o.repeat < 2 ^ 32 - 1
      → Runs ts
      → run_tests find o ts c
        ≡ some (record {
          passed = c.passed + how_many (λ t. selected find o t.entry && case_passes t) ts;
          failed = c.failed + how_many (λ t. selected find o t.entry && not (case_passes t)) ts;
          skipped = c.skipped + how_many (λ t. not (selected find o t.entry)) ts;
        })
  unfolding run_tests
  run_tests-counts [] c pos few r = ground arith
  run_tests-counts (t ∷ ts) c pos few (h, r) =
      let ih =
        run_tests-counts ts (after_case (selected find o t.entry) (case_passes t) c) pos few r in
      rw (run_tests-cons t ts c pos few h) (ground (arith, ih))

  -- Some test is to run.
  abbrev pub AnySelected : List Case → Type 0
  AnySelected [] = ⊥
  AnySelected (t ∷ ts) = (selected find o t.entry ≡ true) ⊎ AnySelected ts

  -- The tests that are to run pass all their runs.
  abbrev pub AllPass : List Case → Type 0
  AllPass [] = Unit
  AllPass (t ∷ ts) = (selected find o t.entry ≡ true → case_passes t ≡ true) × AllPass ts

  none_fails :
      (ts : List Case)
      → (how_many (λ t. selected find o t.entry && not (case_passes t)) ts ≡ 0) ↔ AllPass ts
  none_fails [] = ((λ h. tt), λ h. refl)
  none_fails (t ∷ ts) =
      let (to, from) = none_fails ts in ((λ h. ground (arith, to)), λ h. ground (arith, from))

  some_count :
      (ts : List Case)
      → (0
          < how_many (λ t. selected find o t.entry && case_passes t) ts
            + how_many (λ t. selected find o t.entry && not (case_passes t)) ts)
        ↔ AnySelected ts
  some_count [] = ((λ h. ground arith), λ h. absurd h)
  some_count (t ∷ ts) =
      let (to, from) = some_count ts in ((λ h. ground (arith, to)), λ h. ground (arith, from))

  -- `Runner.Main.Verdict.verdict` over the outcomes of the rounds.
  pub outcomes_verdict :
      (ts : List Case)
      → 0 < o.repeat
      → o.repeat < 2 ^ 32 - 1
      → Runs ts
      → (c : Counts) × (run_tests find o ts nothing ≡ some c)
        × (c.passed ≡ how_many (λ t. selected find o t.entry && case_passes t) ts)
        × (c.failed ≡ how_many (λ t. selected find o t.entry && not (case_passes t)) ts)
        × (c.skipped ≡ how_many (λ t. not (selected find o t.entry)) ts)
        × ((exit_code c ≡ 0) ↔ (AnySelected ts × AllPass ts))
  unfolding exit_code
  outcomes_verdict ts pos few r = (
    _,
    run_tests-counts ts nothing pos few r,
    (omega arith),
    (omega arith),
    (omega arith),
    (
      (λ h. ground (arith, none_fails ts, some_count ts)),
      λ h. ground (arith, none_fails ts, some_count ts),
    ),
  )
