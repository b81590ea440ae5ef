-- ===== src/Runner/Main.antt =====
-- `main` of tests/para_test.cpp as a whole: the command line, the variable, the tests, and for each
-- of their rounds how the test goes: under `--no-fork` how its call does, and else whether `fork`
-- succeeded, the clock before it, and what the polls of the child met.
pub mod Outcomes
pub mod Verdict
pub mod Rounds
pub mod Exit
pub mod InProcess
use paracore.Base.{ℕ, ◌+◌, String, Bool, Option, none, some, List, [], ◌∷◌, ltb, if◌then◌else◌}
use paracore.Runner.{
  Entry, Outcome, Poll, Watched, run_forked, Counts, round, Settings, defaults, selected, exit_code,
  Request, arguments, environment,
}

-- How the call `e.fn()` goes in the process of the runner: it returns, it ends the process, as
-- `fail` does with `_exit(1)` and a signal does, or neither.
pub data Called : Type 0 where
  returns : Called
  exits : (code : ℕ) → Called
  killed : (sig : ℕ) → Called
  hangs : Called

pub record Attempt : Type 0 where
  pub call : Called
  pub forked : Bool
  pub t0 : ℕ
  pub polls : List Poll

pub record Test : Type 0 where
  pub entry : Entry
  pub attempts : List Attempt

-- How far `main` comes: it has counted, the process has ended, or it waits.
pub data Progress : Type 0 where
  counts : Counts → Progress
  exits : (code : ℕ) → Progress
  killed : (sig : ℕ) → Progress
  waits : Progress

-- How a round of a test comes to the `switch`: with an outcome, or not at all.
pub data Tried : Type 0 where
  result : Outcome → Tried
  exits : (code : ℕ) → Tried
  killed : (sig : ℕ) → Tried
  waits : Tried

-- Without `fork`: the line after the call sets the outcome, if the call comes back.
unfoldable pub in_process : Called → Tried
in_process Called.returns = Tried.result Outcome.pass
in_process (Called.exits code) = Tried.exits code
in_process (Called.killed sig) = Tried.killed sig
in_process Called.hangs = Tried.waits

-- A round of a test.
unfoldable pub attempted : Settings → Attempt → Tried
unfolding in_process
attempted o a =
    if o.no_fork then in_process a.call else elim (run_forked a.forked a.t0 o.timeout_ms a.polls) [
      | Watched.waits ↦ Tried.waits
      | Watched.quits ↦ Tried.exits 2
      | Watched.result x ↦ Tried.result x
    ]

-- The inner loop of `main`, from `r` on.
unfoldable pub run_rounds : Settings → (r : ℕ) → List Attempt → Counts → Progress
run_rounds o r [] c = if ltb r o.repeat then Progress.waits else Progress.counts c
run_rounds o r (a ∷ rest) c =
    if ltb r o.repeat
    then elim (attempted o a) [
      | Tried.waits ↦ Progress.waits
      | Tried.exits code ↦ Progress.exits code
      | Tried.killed sig ↦ Progress.killed sig
      | Tried.result x ↦ run_rounds o (round o.repeat r x c).1 rest (round o.repeat r x c).0
    ]
    else Progress.counts c

module _ (find : (name filter : String) → Bool) where
  -- The outer loop.
  unfoldable pub run_suite : Settings → List Test → Counts → Progress
  run_suite o [] c = Progress.counts c
  run_suite o (t ∷ ts) c =
      if selected find o t.entry
      then elim (run_rounds o 0 t.attempts c) [
        | Progress.counts c' ↦ run_suite o ts c'
        | Progress.exits code ↦ Progress.exits code
        | Progress.killed sig ↦ Progress.killed sig
        | Progress.waits ↦ Progress.waits
      ]
      else run_suite o ts (record c { skipped = c.skipped + 1 })

  -- `main(argc, argv)` without the program's name: how the process ends, or `waits`.
  unfoldable pub main : (strtoul : String → ℕ) → List String → Option String → List Test → Progress
  main strtoul argv env tests = elim (arguments strtoul argv defaults) [
    | Request.list ↦ Progress.exits 0
    | Request.usage ↦ Progress.exits 0
    | Request.run o ↦
        elim (run_suite (environment strtoul env o) tests
          (record { passed = 0; failed = 0; skipped = 0 })) [
            | Progress.counts c ↦ Progress.exits (exit_code c)
            | Progress.exits code ↦ Progress.exits code
            | Progress.killed sig ↦ Progress.killed sig
            | Progress.waits ↦ Progress.waits
          ]
  ]
