-- ===== src/Runner.antt =====
-- tests/para_test.hpp and tests/para_test.cpp: the runner that every test goes through. What the
-- children do, the clock, `strtoul` and `find` are arguments: how each poll of a child ends, how
-- each run of a test ends, what a text reads as a number, whether one text is found in another.
pub mod Watch
pub mod Rounds
pub mod Verdict
pub mod Arguments
pub mod Main
pub mod Report
use text.Mathlib.Text.{◌==◌ as str_eq}
use paracore.Base.{
  ℕ, ◌+◌, ◌*◌, ◌%◌, ◌^◌, String, Bool, true, false, not, ◌&&◌, Option, none, some, List, [], ◌∷◌,
  ◌++◌, ltb, leb, ◌==◌, if◌then◌else◌, length,
}

pub data Tag : Type 0 where
  plain race : Tag

-- `Entry`, less the function and the place that only messages name.
pub record Entry : Type 0 where
  pub name : String
  pub tag : Tag

abbrev pub max_tests : ℕ
max_tests = 512

-- `register_test`: the registry after it, or `none` if it called `_exit(2)`.
unfoldable pub register_test : Entry → List Entry → Option (List Entry)
register_test e tests = if leb max_tests (length tests) then none else some (tests ++ e ∷ [])

-- `enum class Outcome`; the signal stands with its number.
pub data Outcome : Type 0 where
  pass fail timeout : Outcome
  signal : ℕ → Outcome

-- How a child ended, as the `W...` macros read its status.
pub data Ended : Type 0 where
  exited signalled : ℕ → Ended

-- What a round of the loop of `run_forked` meets: the child has ended, `waitpid` was interrupted or
-- failed, or the child runs on and the clock shows `now`.
pub data Poll : Type 0 where
  ended : Ended → Poll
  interrupted failed : Poll
  running : (now : ℕ) → Poll

-- How far `run_forked` has come: it waits on, has a result, or has called `_exit(2)`.
pub data Watched : Type 0 where
  waits : Watched
  result : Outcome → Watched
  quits : Watched

-- The outcome after the loop.
unfoldable pub outcome : Ended → Outcome
outcome (Ended.signalled sig) = Outcome.signal sig
outcome (Ended.exited code) = if code == 0 then Outcome.pass else Outcome.fail

-- The deadline, in a `uint64_t`.
unfoldable pub deadline : (t0 timeout_ms : ℕ) → ℕ
deadline t0 timeout_ms = (t0 + timeout_ms * 1000000 % 2 ^ 64) % 2 ^ 64

-- The loop of `run_forked`, which kills the child at the deadline.
unfoldable pub watch : (until : ℕ) → List Poll → Watched
unfolding outcome
watch until [] = Watched.waits
watch until (Poll.ended e ∷ polls) = Watched.result (outcome e)
watch until (Poll.interrupted ∷ polls) = watch until polls
watch until (Poll.failed ∷ polls) = Watched.quits
watch until (Poll.running now ∷ polls) =
    let rest = watch until polls in if leb until now then Watched.result Outcome.timeout else rest

-- `run_forked`, where `fork` succeeds or fails.
unfoldable pub run_forked : (forked : Bool) (t0 timeout_ms : ℕ) → List Poll → Watched
unfolding watch deadline
run_forked forked t0 timeout_ms polls =
    if forked then watch (deadline t0 timeout_ms) polls else Watched.quits

-- The counters of `main`.
pub record Counts : Type 0 where
  pub passed : ℕ
  pub failed : ℕ
  pub skipped : ℕ

-- One round of the inner loop of `main`: the counters, and `r` after `++r`. A run that does not
-- pass sets `r` to `repeat` first.
unfoldable pub round : (repeat r : ℕ) → Outcome → Counts → Counts × ℕ
round repeat r Outcome.pass c = (
  (if (r + 1) % 2 ^ 32 == repeat then record c { passed = c.passed + 1 } else c),
  (r + 1) % 2 ^ 32,
)
round repeat r o c = (record c { failed = c.failed + 1 }, (repeat + 1) % 2 ^ 32)

-- The inner loop from `r` on, over how the runs of the test end: the counters after it, or `none`
-- while runs are left to come.
unfoldable pub test_rounds : (repeat r : ℕ) → List Outcome → Counts → Option Counts
unfolding round
test_rounds repeat r [] c = if ltb r repeat then none else some c
test_rounds repeat r (o ∷ os) c =
    let (c', r') = round repeat r o c in
    let rest : Option Counts = test_rounds repeat r' os c' in if ltb r repeat then rest else some c

-- What `main` reads from the command line.
pub record Settings : Type 0 where
  pub repeat : ℕ
  pub timeout_ms : ℕ
  pub race_only : Bool
  pub no_fork : Bool
  pub filter : Option String

abbrev pub defaults : Settings
defaults = record {
  repeat = 1;
  timeout_ms = 10000;
  race_only = false;
  no_fork = false;
  filter = none;
}

abbrev pub is_race : Tag → Bool
is_race Tag.race = true
is_race Tag.plain = false

-- A test in a run of the whole suite: its entry, and `res.outcome` in each of its rounds. A round
-- that ends the process, as a failure does under `--no-fork`, has none: Runner/Main has those too.
pub record Case : Type 0 where
  pub entry : Entry
  pub runs : List Outcome

module _ (find : (name filter : String) → Bool) where
  -- Whether the outer loop of `main` runs a test, or skips it.
  unfoldable pub selected : Settings → Entry → Bool
  selected o e =
      (if o.race_only then is_race e.tag else true)
      && elim o.filter [ none ↦ true | some f ↦ find e.name f ]

  -- The outer loop of `main`, while each of its rounds has an outcome.
  unfoldable pub run_tests : Settings → List Case → Counts → Option Counts
  unfolding selected test_rounds
  run_tests o [] c = some c
  run_tests o (t ∷ ts) c =
      if selected o t.entry
      then elim (test_rounds o.repeat 0 t.runs c) [ none ↦ none | some c' ↦ run_tests o ts c' ]
      else run_tests o ts (record c { skipped = c.skipped + 1 })

-- What `main` returns after the loops.
unfoldable pub exit_code : Counts → ℕ
exit_code c = if (c.passed == 0) && (c.failed == 0) then 1 else if c.failed == 0 then 0 else 1

-- What the command line asks for: a list of the tests, the usage text, or a run.
pub data Request : Type 0 where
  list usage : Request
  run : Settings → Request

module _ (strtoul : String → ℕ) where
  abbrev pub number : String → ℕ
  number s = strtoul s % 2 ^ 32

  -- The loop over `argv`. An option that wants a value and is last is taken for a filter.
  unfoldable pub arguments : List String → Settings → Request
  arguments [] o = Request.run o
  arguments (a ∷ []) o =
      if str_eq a "--list"
      then Request.list
      else if str_eq a "--race-only"
      then Request.run (record o { race_only = true })
      else if str_eq a "--no-fork"
      then Request.run (record o { no_fork = true })
      else if str_eq a "--help"
      then Request.usage
      else if str_eq a "-h"
      then Request.usage
      else Request.run (record o { filter = some a })
  arguments (a ∷ v ∷ rest) o =
      let repeated = arguments rest (record o { repeat = number v }) in
      let timed = arguments rest (record o { timeout_ms = number v }) in
      let racing = arguments (v ∷ rest) (record o { race_only = true }) in
      let in_process = arguments (v ∷ rest) (record o { no_fork = true }) in
      let filtered = arguments (v ∷ rest) (record o { filter = some a }) in
      if str_eq a "--list"
      then Request.list
      else if str_eq a "--repeat"
      then repeated
      else if str_eq a "--timeout"
      then timed
      else if str_eq a "--race-only"
      then racing
      else if str_eq a "--no-fork"
      then in_process
      else if str_eq a "--help"
      then Request.usage
      else if str_eq a "-h"
      then Request.usage
      else filtered

  -- The variable PARA_TEST_TIMEOUT_MS, if it is set, wins over `--timeout`.
  unfoldable pub environment : Option String → Settings → Settings
  environment none o = o
  environment (some env) o = record o { timeout_ms = number env }
