-- ===== src/Runner/Report.antt =====
-- What `main` of tests/para_test.cpp prints. Times, and the place of a test in its file, are left out;
-- how `printf` writes a number is an argument.
pub mod Counted
use Prim.Native.String.{◌++◌ as joined}
use paracore.Base.{
  ℕ, ◌+◌, ◌%◌, ◌^◌, String, Bool, true, false, ◌&&◌, List, [], ◌∷◌, ◌++◌, ltb, ◌==◌, if◌then◌else◌,
}
use paracore.Runner.{Tag, Entry, Outcome, Counts, Settings, Case, selected, is_race}

-- One for each `printf` of a run.
pub data Line : Type 0 where
  begins : (registered timeout_ms repeat : ℕ) → Line  -- "paracore: %d registered tests, ..."
  ok failed timed_out : (name : String) → Line
  hint : Line  -- "run: valgrind --tool=helgrind for the lock order"
  signalled : (name : String) (sig : ℕ) → Line
  summary : Counts → Line  -- "%d ok, %d failed, %d skipped"
  none_ran : Line  -- "NO TESTS RAN"

-- The `switch` over the outcome of round `r`.
unfoldable pub round_lines : (repeat r : ℕ) → String → Outcome → List Line
round_lines repeat r name Outcome.pass =
    if (r + 1) % 2 ^ 32 == repeat then Line.ok name ∷ [] else []
round_lines repeat r name Outcome.fail = Line.failed name ∷ []
round_lines repeat r name Outcome.timeout = Line.timed_out name ∷ Line.hint ∷ []
round_lines repeat r name (Outcome.signal sig) = Line.signalled name sig ∷ []

-- `r` in the next round: a run that does not pass sets it to `repeat` first.
unfoldable pub next_round : (repeat r : ℕ) → Outcome → ℕ
next_round repeat r Outcome.pass = (r + 1) % 2 ^ 32
next_round repeat r o = (repeat + 1) % 2 ^ 32

-- The inner loop from `r` on.
unfoldable pub test_lines : (repeat r : ℕ) → String → List Outcome → List Line
unfolding round_lines next_round
test_lines repeat r name [] = []
test_lines repeat r name (o ∷ os) =
    let rest = test_lines repeat (next_round repeat r o) name os in
    if ltb r repeat then round_lines repeat r name o ++ rest else []

-- After the loops.
unfoldable pub last_lines : Counts → List Line
last_lines c =
    Line.summary c ∷ (if (c.passed == 0) && (c.failed == 0) then Line.none_ran ∷ [] else [])

module _ (find : (name filter : String) → Bool) where
  -- The outer loop.
  unfoldable pub suite_lines : Settings → List Case → List Line
  unfolding selected test_lines
  suite_lines o [] = []
  suite_lines o (t ∷ ts) =
      if selected find o t.entry
      then test_lines o.repeat 0 t.entry.name t.runs ++ suite_lines o ts
      else suite_lines o ts

  -- All that a run prints, with `registered` tests and the counters at its end.
  unfoldable pub run_lines : (registered : ℕ) → Settings → List Case → Counts → List Line
  unfolding suite_lines last_lines
  run_lines registered o ts c =
      Line.begins registered o.timeout_ms o.repeat ∷ (suite_lines o ts ++ last_lines c)

-- `--list`
unfoldable pub listing : List Entry → List String
listing [] = []
listing (e ∷ es) = joined e.name (if is_race e.tag then "  [race]" else "") ∷ listing es

-- `usage(argv0)`
unfoldable pub usage : (shown : ℕ → String) (argv0 : String) → List String
usage shown argv0 =
    joined "usage: " (joined argv0 " [options] [filter]")
    ∷ "  --list             list the tests and exit"
    ∷ "  --repeat N         run every test N times (default 1)"
    ∷ joined "  --timeout MS       watchdog per test (default " (joined (shown 10000) ")")
    ∷ "  --race-only        run only PARA_TEST_RACE-tagged tests"
    ∷ "  --no-fork          run in-process (for valgrind without trace-children)"
    ∷ "  filter             substring the test name must contain"
    ∷ []
