-- ===== src/Suite/Plan/Report.antt =====
-- What the test runner reports of the tests of the build plan.
use paracore.Base.{ℕ, ◌+◌, ◌*◌, ◌^◌, ◌<◌, ◌≡◌, ◌≢◌, ◌↔◌, refl, true, List, [], ◌∷◌, ◌++◌}
use paracore.Core.Modules.{Row}
use paracore.Runner.{Outcome, Poll, Watched, outcome, run_forked}
use paracore.Runner.Watch.{AllGoOn, run_forked-child}
use paracore.Suite.Asserts.{Verdict, Passes, Test, exit_of, built_in}
use paracore.Suite.Plan.{Numbered, subject, expects_built, body}
use paracore.Suite.Plan.Flip.{test_plan_iff}

-- A test that passes is a pass, and one that fails a fail.
outcome_iff :
    (v : Test)
    → ((Watched.result (outcome (exit_of v)) ≡ Watched.result Outcome.pass) ↔ Passes v)
      × ((Watched.result (outcome (exit_of v)) ≡ Watched.result Outcome.fail) ↔ (¬ Passes v))
unfolding outcome
outcome_iff (Verdict.passes u) = ((λ e. tt, λ p. refl), (λ e. cc, λ n. absurd (n tt)))
outcome_iff (Verdict.fails w) = ((λ e. cc, λ p. absurd p), (λ e p. p, λ n. refl))

-- The build plan as the runner reports it: on any plan, when the child of a test of
-- test_notbuilt.cpp ends before the deadline, which fits 64 bits, `run_forked` reports a pass
-- exactly when the plan has the module of the test's number as the test expects it, built for 0 and
-- 1 and not built for 2 to 11, and a fail exactly when the row of that module is flipped.
pub plan_reported :
    {Double : Type 0} (two_percent : Double) (rows : List Row) (n : Numbered)
    → (t0 timeout_ms : ℕ) (before : List Poll) → t0 + timeout_ms * 1000000 < 2 ^ 64
    → AllGoOn (t0 + timeout_ms * 1000000) before
    → let polls = before ++ (Poll.ended (exit_of (body two_percent rows n)) ∷ []) in
      ((run_forked true t0 timeout_ms polls ≡ Watched.result Outcome.pass)
        ↔ (built_in rows (subject n) ≡ expects_built n))
      × ((run_forked true t0 timeout_ms polls ≡ Watched.result Outcome.fail)
          ↔ (built_in rows (subject n) ≢ expects_built n))
plan_reported two_percent rows n t0 timeout_ms before early h =
    let (pass, fail) = outcome_iff (body two_percent rows n) in
    let (to, from) = test_plan_iff two_percent rows n in
    rw (run_forked-child t0 timeout_ms before (exit_of (body two_percent rows n)) early h) (
      (λ e. to (pass.0 e), λ b. pass.1 (from b)),
      (λ e b. fail.0 e (from b), λ no. fail.1 (λ p. no (to p))),
    )
