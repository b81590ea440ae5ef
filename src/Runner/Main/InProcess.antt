-- ===== src/Runner/Main/InProcess.antt =====
-- The exit code of the test runner under `--no-fork`, where a test that fails ends the process.
use paracore.Base.{
  ℕ, ◌⊎◌, inl, inr, ◌+◌, ◌-◌, ◌^◌, ◌≤◌, ◌<◌, ◌≡◌, refl, sym, ◌∙◌, ap, String, Bool, true,
  Bool-cases, Option, List, [], ◌∷◌, length, ltb, arith,
}
use paracore.Runner.{
  Outcome, Counts, round, Settings, defaults, selected, exit_code, Request, arguments, environment,
}
use paracore.Runner.Verdict.{nothing}
use paracore.Runner.Main.{
  Called, in_process, Attempt, Test, Tried, Progress, attempted, run_rounds, run_suite, main,
}
use paracore.Runner.Main.Outcomes.{SomeSelected, AllPassed}
use paracore.Runner.Main.Rounds.{NoneExits0}
use paracore.Runner.Main.Exit.{Enough, last, main-last, main_zero}

-- The call returns, or fails an assertion.
abbrev pub Asserts : Called → Type 0
Asserts k = (k ≡ Called.returns) ⊎ (k ≡ Called.exits 1)

abbrev pub AllAssert : List Attempt → Type 0
AllAssert [] = Unit
AllAssert (a ∷ rest) = Asserts a.call × AllAssert rest

-- Each test has as many rounds as it may need, and in each its call returns or fails an assertion.
abbrev pub Asserting : Settings → List Test → Type 0
Asserting o [] = Unit
Asserting o (t ∷ ts) = (o.repeat ≤ length t.attempts) × AllAssert t.attempts × Asserting o ts

AllAssert-NoneExits0 : (o : Settings) (rest : List Attempt) → AllAssert rest → NoneExits0 o rest
AllAssert-NoneExits0 o [] h = tt
AllAssert-NoneExits0 o (a ∷ rest) (inl e, h) = ((λ n z. cc), AllAssert-NoneExits0 o rest h)
AllAssert-NoneExits0 o (a ∷ rest) (inr e, h) = ((λ n z. cc), AllAssert-NoneExits0 o rest h)

Asserting-Enough : (o : Settings) (ts : List Test) → Asserting o ts → Enough o ts
Asserting-Enough o [] h = tt
Asserting-Enough o (t ∷ ts) (long, asserts, h) =
    (long, AllAssert-NoneExits0 o t.attempts asserts, Asserting-Enough o ts h)

-- The loops go on, or the process has ended with 1, or a round is still to come.
abbrev Fails : Progress → Type 0
Fails (Progress.counts c) = Unit
Fails (Progress.exits code) = code ≡ 1
Fails (Progress.killed sig) = ⊥
Fails Progress.waits = ⊥

below : (a b : ℕ) → ltb a b ≡ true → a < b
below a b h = ground arith

attempted-returns :
    (o : Settings) (a : Attempt)
    → o.no_fork ≡ true
    → a.call ≡ Called.returns
    → attempted o a ≡ Tried.result Outcome.pass
unfolding attempted in_process
attempted-returns o a n e = rw (n, e) refl

attempted-fails :
    (o : Settings) (a : Attempt)
    → o.no_fork ≡ true
    → a.call ≡ Called.exits 1
    → attempted o a ≡ Tried.exits 1
unfolding attempted in_process
attempted-fails o a n e = rw (n, e) refl

round-next :
    (repeat r : ℕ) (c : Counts)
    → r < repeat
    → repeat < 2 ^ 32 - 1
    → (round repeat r Outcome.pass c).1 ≡ r + 1
unfolding round
round-next repeat r c h few = ground arith

run_rounds-Fails :
    (o : Settings) (rest : List Attempt) (r : ℕ) (c : Counts)
    → o.no_fork ≡ true
    → o.repeat ≤ r + length rest
    → o.repeat < 2 ^ 32 - 1
    → AllAssert rest
    → Fails (run_rounds o r rest c)
unfolding run_rounds
run_rounds-Fails o [] r c n long few h = elim (Bool-cases (ltb r o.repeat)) [
  | inl b ↦ absurd (omega (arith, below r o.repeat b, long))
  | inr b ↦ rw b tt
]
run_rounds-Fails o (a ∷ rest) r c n long few (asserts, h) = elim (Bool-cases (ltb r o.repeat)) [
  | inr b ↦ rw b tt
  | inl b ↦ elim asserts [
    | inl e ↦
        let here = below r o.repeat b in
        rw (b, attempted-returns o a n e, round-next o.repeat r c here few)
          (run_rounds-Fails o rest (r + 1) (round o.repeat r Outcome.pass c).0 n
            (omega (arith, long)) few h)
    | inr e ↦ rw (b, attempted-fails o a n e) refl
  ]
]

module _ (find : (name filter : String) → Bool) (o : Settings) where
  -- A selected test before the others, whose rounds come to `p`.
  suite_step-Fails :
      (t : Test) (ts : List Test) (c : Counts) (p : Progress)
      → selected find o t.entry ≡ true
      → run_rounds o 0 t.attempts c ≡ p
      → Fails p
      → ((c1 : Counts) → Fails (run_suite find o ts c1))
      → Fails (run_suite find o (t ∷ ts) c)
  unfolding run_suite
  suite_step-Fails t ts c (Progress.counts c1) e q h next = rw (e, q) (next c1)
  suite_step-Fails t ts c (Progress.exits code) e q h next = rw (e, q) h
  suite_step-Fails t ts c (Progress.killed sig) e q h next = absurd h
  suite_step-Fails t ts c Progress.waits e q h next = absurd h

  run_suite-Fails :
      (ts : List Test) (c : Counts)
      → o.no_fork ≡ true
      → o.repeat < 2 ^ 32 - 1
      → Asserting o ts
      → Fails (run_suite find o ts c)
  unfolding run_suite
  run_suite-Fails [] c n few h = tt
  run_suite-Fails (t ∷ ts) c n few (long, asserts, h) =
      elim (Bool-cases (selected find o t.entry)) [
        | inl e ↦
            suite_step-Fails t ts c (run_rounds o 0 t.attempts c) e refl
              (run_rounds-Fails o t.attempts 0 c n (omega (arith, long)) few asserts)
              (λ c1. run_suite-Fails ts c1 n few h)
        | inr e ↦ rw e (run_suite-Fails ts (record c { skipped = c.skipped + 1 }) n few h)
      ]

exit_code-cases : (c : Counts) → (exit_code c ≡ 0) ⊎ (exit_code c ≡ 1)
unfolding exit_code
exit_code-cases c = ground arith

last-Fails : (p : Progress) → Fails p → (last p ≡ Progress.exits 0) ⊎ (last p ≡ Progress.exits 1)
last-Fails (Progress.counts c) h = elim (exit_code-cases c) [
  | inl e ↦ inl (ap Progress.exits e)
  | inr e ↦ inr (ap Progress.exits e)
]
last-Fails (Progress.exits code) h = inr (ap Progress.exits h)
last-Fails (Progress.killed sig) h = absurd h
last-Fails Progress.waits h = absurd h

-- Under `--no-fork`, with 1 to 2 ^ 32 - 2 rounds per test and as many rounds of each test, in each
-- of which the call returns or fails an assertion with `_exit(1)`, the process always exits: with 0
-- when some test is selected and every selected test passes in all its rounds, and else with 1.
pub no_fork_code :
    (find : (name filter : String) → Bool) (strtoul : String → ℕ) (argv : List String)
    (env : Option String)
    → (tests : List Test) (asked o : Settings) → arguments strtoul argv defaults ≡ Request.run asked
    → environment strtoul env asked ≡ o
    → o.no_fork ≡ true
    → 0 < o.repeat
    → o.repeat < 2 ^ 32 - 1
    → Asserting o tests
    → ((main find strtoul argv env tests ≡ Progress.exits 0)
        × (SomeSelected find o tests × AllPassed find o tests))
      ⊎ ((main find strtoul argv env tests ≡ Progress.exits 1)
          × (SomeSelected find o tests × AllPassed find o tests → ⊥))
no_fork_code find strtoul argv env tests asked o parsed set n pos few h =
    let (to, from) =
      main_zero find strtoul argv env tests asked o parsed set pos few
        (Asserting-Enough o tests h) in
    let run = main-last find strtoul argv env tests asked o parsed set in
    elim (last-Fails (run_suite find o tests nothing)
      (run_suite-Fails find o tests nothing n few h)) [
        | inl e ↦ inl (run ∙ e, to (run ∙ e))
        | inr e ↦ inr (
          run ∙ e,
          λ z. let both : Progress.exits 0 ≡ Progress.exits 1 = sym (from z) ∙ (run ∙ e) in cc,
        )
      ]
