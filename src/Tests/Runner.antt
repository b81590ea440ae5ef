-- ===== src/Tests/Runner.antt =====
-- Runs of the test runner.
use text.Mathlib.Text.{◌==◌ as str_eq}
use paracore.Base.{
  ℕ, ◌+◌, ◌-◌, ◌*◌, ◌^◌, ◌≡◌, ◌↔◌, ◌⊎◌, inl, inr, refl, String, Bool, true, false, not, ◌&&◌, none,
  some, List, [], ◌∷◌, if◌then◌else◌, arith,
}
use paracore.Runner.{
  Tag, Outcome, Poll, Watched, run_forked, Counts, test_rounds, Settings, defaults, Case, selected,
  run_tests, exit_code, Request, arguments, environment, Ended,
}
use paracore.Runner.Main
use paracore.Runner.Main.Outcomes.{SomeSelected, AllPassed}
use paracore.Runner.Main.Verdict.{test_passes, count, verdict}
use paracore.Runner.Main.Exit.{main_zero}
use paracore.Runner.Main.InProcess.{no_fork_code}
use paracore.Runner.Rounds.{rounds_never_end}
use paracore.Runner.Watch.{Reaches, Late, ExitsWith0, AllGoOn, run_forked_iff}
use paracore.Runner.Report.{run_lines}
use paracore.Runner.Report.Counted.{oks, complaints, report_true}
use paracore.Runner.Verdict.{nothing}
use paracore.Runner.Arguments.{arguments-written}

-- Two rounds per test.
abbrev twice : Settings
twice = record {
  repeat = 2;
  timeout_ms = 500;
  race_only = true;
  no_fork = false;
  filter = some "lock";
}

-- A name has a filter in it if it is the filter.
abbrev equal : (name filter : String) → Bool
equal name filter = str_eq name filter

abbrev steady : Case
steady = record {
  entry = record { name = "lock"; tag = Tag.race };
  runs = Outcome.pass ∷ Outcome.pass ∷ [];
}

abbrev slow : Case
slow = record {
  entry = record { name = "lock"; tag = Tag.race };
  runs = Outcome.pass ∷ Outcome.timeout ∷ [];
}

abbrev plain : Case
plain = record {
  entry = record { name = "lock"; tag = Tag.plain };
  runs = Outcome.pass ∷ Outcome.pass ∷ [];
}

abbrev suite : List Case
suite = steady ∷ slow ∷ plain ∷ []

abbrev one_each : Counts
one_each = record { passed = 1; failed = 1; skipped = 1 }

-- One line for the first test, two for the second, and none for the third.
report_true_example :
    (◌≡◌ {A = ℕ} 1 (oks (run_lines equal 3 twice suite one_each)))
    × (◌≡◌ {A = ℕ} 1 (complaints (run_lines equal 3 twice suite one_each)))
unfolding run_tests
report_true_example = report_true equal twice 3 suite one_each refl

-- The child runs past its deadline of 2 ms.
abbrev polls : List Poll
polls = Poll.running 1000 ∷ Poll.interrupted ∷ Poll.running 2000500 ∷ []

run_forked_iff_example :
    ((run_forked true 500 2 polls ≡ Watched.result Outcome.timeout)
      ↔ Reaches (Late (500 + 2 * 1000000)) (500 + 2 * 1000000) polls)
    × ((run_forked true 500 2 polls ≡ Watched.result Outcome.pass)
        ↔ Reaches ExitsWith0 (500 + 2 * 1000000) polls)
    × ((run_forked true 500 2 polls ≡ Watched.waits) ↔ AllGoOn (500 + 2 * 1000000) polls)
run_forked_iff_example = run_forked_iff 500 2 polls (omega arith)

rounds_never_end_example :
    test_rounds (2 ^ 32 - 1) 0 (Outcome.fail ∷ Outcome.timeout ∷ []) nothing ≡ none
rounds_never_end_example =
    rounds_never_end (Outcome.fail ∷ Outcome.timeout ∷ []) nothing (refl, (refl, tt))

-- What `strtoul` reads in two texts.
abbrev strtoul : String → ℕ
strtoul s = if str_eq s "2" then 2 else if str_eq s "500" then 500 else 0

arguments-written_example :
    arguments strtoul
      ("--repeat" ∷ "2" ∷ "--timeout" ∷ "500" ∷ "--race-only" ∷ "lock" ∷ [])
      defaults
    ≡ Request.run twice
arguments-written_example =
    arguments-written strtoul "2" "500" twice refl refl (omega arith) (omega arith) refl

-- A child that exits with 0 while it is watched, and one that runs past the 500 ms.
abbrev in_time : Main.Attempt
in_time = record {
  call = Main.Called.returns;
  forked = true;
  t0 = 0;
  polls = Poll.running 1000 ∷ Poll.ended (Ended.exited 0) ∷ [];
}

abbrev too_late : Main.Attempt
too_late = record {
  call = Main.Called.returns;
  forked = true;
  t0 = 0;
  polls = Poll.running 500000000 ∷ [];
}

abbrev tests : List Main.Test
tests =
    record { entry = record { name = "lock"; tag = Tag.race }; attempts = in_time ∷ in_time ∷ [] }
    ∷ record {
      entry = record { name = "lock"; tag = Tag.race };
      attempts = in_time ∷ too_late ∷ [];
    }
    ∷ []

abbrev argv : List String
argv = "--repeat" ∷ "2" ∷ "--race-only" ∷ "lock" ∷ []

abbrev asked : Settings
asked = record defaults { repeat = 2; race_only = true; filter = some "lock" }

main_zero_example :
    (Main.main equal strtoul argv (some "500") tests ≡ Main.Progress.exits 0)
    ↔ (SomeSelected equal twice tests × AllPassed equal twice tests)
unfolding arguments environment
main_zero_example =
    main_zero equal strtoul argv (some "500") tests asked twice refl refl (omega arith)
      (omega arith)
      (
        (omega arith),
        ((λ e. cc), ((λ e. cc), tt)),
        ((omega arith), ((λ e. cc), ((λ e. cc), tt)), tt),
      )

verdict_example :
    (c : Counts) × (Main.run_suite equal twice tests nothing ≡ Main.Progress.counts c)
    × (c.passed
        ≡ count equal twice (λ t. selected equal twice t.entry && test_passes equal twice t) tests)
    × (c.failed
        ≡ count equal twice
            (λ t. selected equal twice t.entry && not (test_passes equal twice t))
            tests)
    × (c.skipped ≡ count equal twice (λ t. not (selected equal twice t.entry)) tests)
    × ((exit_code c ≡ 0) ↔ (SomeSelected equal twice tests × AllPassed equal twice tests))
unfolding Main.attempted run_forked
verdict_example = verdict equal twice tests (omega arith) (omega arith) (
  (omega arith),
  (Outcome.pass, refl, (Outcome.pass, refl, tt)),
  ((omega arith), (Outcome.pass, refl, (Outcome.timeout, refl, tt)), tt),
)

-- In the process of the runner, a call that fails an assertion: its round is the last of the run.
abbrev fails : Main.Attempt
fails = record in_time { call = Main.Called.exits 1 }

abbrev in_process : List Main.Test
in_process =
    record { entry = record { name = "lock"; tag = Tag.race }; attempts = fails ∷ [] }
    ∷ record { entry = record { name = "lock"; tag = Tag.race }; attempts = in_time ∷ [] }
    ∷ []

abbrev argv_in_process : List String
argv_in_process = "--no-fork" ∷ []

abbrev one_round : Settings
one_round = record defaults { no_fork = true }

no_fork_exits_1 : Main.main equal strtoul argv_in_process none in_process ≡ Main.Progress.exits 1
unfolding Main.main arguments environment Main.run_suite Main.run_rounds Main.attempted selected
no_fork_exits_1 = refl

no_fork_code_example :
    ((Main.main equal strtoul argv_in_process none in_process ≡ Main.Progress.exits 0)
      × (SomeSelected equal one_round in_process × AllPassed equal one_round in_process))
    ⊎ ((Main.main equal strtoul argv_in_process none in_process ≡ Main.Progress.exits 1)
        × (SomeSelected equal one_round in_process × AllPassed equal one_round in_process → ⊥))
unfolding arguments environment
no_fork_code_example =
    no_fork_code equal strtoul argv_in_process none in_process one_round one_round refl refl refl
      (omega arith) (omega arith)
      ((omega arith), (inr refl, tt), ((omega arith), (inl refl, tt), tt))
