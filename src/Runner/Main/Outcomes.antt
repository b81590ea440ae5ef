-- ===== src/Runner/Main/Outcomes.antt =====
-- The loops of `main` when each round of each test has an outcome: they are the loops of Runner.
use paracore.Base.{
  ℕ, zero, suc, ◌⊎◌, inl, inr, ◌+◌, ◌≤◌, ◌≡◌, ◌↔◌, refl, sym, ◌∙◌, String, Bool, true, false,
  Option, none, some, List, [], ◌∷◌, length, Option-cases, arith,
}
use paracore.Runner.{
  Outcome, Watched, run_forked, Counts, round, test_rounds, Settings, Case, selected, run_tests,
}
use paracore.Runner.Rounds.{all_pass}
use paracore.Runner.Verdict.{Runs, AnySelected, AllPass}
use paracore.Runner.Main.{
  Called, in_process, Attempt, Test, Tried, Progress, attempted, run_rounds, run_suite,
}

-- The outcomes of rounds that have one.
abbrev pub results : Settings → List Attempt → List Outcome
results o [] = []
results o (a ∷ rest) = elim (attempted o a) [
  | Tried.result x ↦ x ∷ results o rest
  | _ ↦ results o rest
]

results-cons :
    (o : Settings) (a : Attempt) (x : Outcome) (rest : List Attempt)
    → attempted o a ≡ Tried.result x
    → results o (a ∷ rest) ≡ x ∷ results o rest
results-cons o a x rest e = rw (e, results) refl

-- Each round has a result.
abbrev pub Answered : Settings → List Attempt → Type 0
Answered o [] = Unit
Answered o (a ∷ rest) = (x : Outcome) × (attempted o a ≡ Tried.result x) × Answered o rest

abbrev pub progress : Option Counts → Progress
progress none = Progress.waits
progress (some c) = Progress.counts c

run_rounds-test_rounds :
    (o : Settings) (rest : List Attempt) (r : ℕ) (c : Counts)
    → Answered o rest
    → run_rounds o r rest c ≡ progress (test_rounds o.repeat r (results o rest) c)
unfolding run_rounds test_rounds
run_rounds-test_rounds o [] r c h = ground arith
run_rounds-test_rounds o (a ∷ rest) r c (x, e, h) = rw e (
    ground
      (arith, run_rounds-test_rounds o rest (round o.repeat r x c).1 (round o.repeat r x c).0 h))

-- The test as the loops see it.
abbrev pub case_of : Settings → Test → Case
case_of o t = record { entry = t.entry; runs = results o t.attempts }

abbrev pub cases : Settings → List Test → List Case
cases o [] = []
cases o (t ∷ ts) = case_of o t ∷ cases o ts

-- Each test has as many rounds as it may need, and each of them has a result.
abbrev pub Ready : Settings → List Test → Type 0
Ready o [] = Unit
Ready o (t ∷ ts) = (o.repeat ≤ length t.attempts) × Answered o t.attempts × Ready o ts

-- A round passes: under `--no-fork` the call returns, and else `run_forked` reports a pass.
abbrev pub RoundPasses : Settings → Attempt → Type 0
RoundPasses o a =
    ((o.no_fork ≡ true) × (a.call ≡ Called.returns))
    ⊎ ((o.no_fork ≡ false)
        × (run_forked a.forked a.t0 o.timeout_ms a.polls ≡ Watched.result Outcome.pass))

returns_iff : (k : Called) → (in_process k ≡ Tried.result Outcome.pass) ↔ (k ≡ Called.returns)
unfolding in_process
returns_iff Called.returns = ((λ e. refl), λ e. refl)
returns_iff (Called.exits code) = ((λ e. cc), λ e. cc)
returns_iff (Called.killed sig) = ((λ e. cc), λ e. cc)
returns_iff Called.hangs = ((λ e. cc), λ e. cc)

pub attempted_iff :
    (o : Settings) (a : Attempt) → (attempted o a ≡ Tried.result Outcome.pass) ↔ RoundPasses o a
unfolding attempted
attempted_iff o a =
    let (to, from) = returns_iff a.call in ((λ e. ground (arith, to)), λ e. ground (arith, from))

-- The first `k` rounds pass.
abbrev pub Passed : Settings → ℕ → List Attempt → Type 0
Passed o zero rest = Unit
Passed o (suc k) [] = ⊥
Passed o (suc k) (a ∷ rest) = RoundPasses o a × Passed o k rest

length-results :
    (o : Settings) (rest : List Attempt) → Answered o rest → length (results o rest) ≡ length rest
length-results o [] h = refl
length-results o (a ∷ rest) (x, e, h) =
    rw (results-cons o a x rest e) (omega (arith, length-results o rest h))

first_passes :
    (o : Settings) (k : ℕ) (a : Attempt) (rest : List Attempt) (x : Outcome)
    → attempted o a ≡ Tried.result x
    → (all_pass k (results o rest) ≡ true) ↔ Passed o k rest
    → (all_pass (suc k) (x ∷ results o rest) ≡ true) ↔ Passed o (suc k) (a ∷ rest)
first_passes o k a rest Outcome.pass e (to, from) =
    ((λ z. ((attempted_iff o a).0 e, to z)), λ z. from z.1)
first_passes o k a rest x e (to, from) = (
  (λ z. cc),
  λ z.
      let both : Tried.result x ≡ Tried.result Outcome.pass = sym e ∙ (attempted_iff o a).1 z.0 in
      cc,
)

Passed-all_pass :
    (o : Settings) (k : ℕ) (rest : List Attempt)
    → Answered o rest
    → (all_pass k (results o rest) ≡ true) ↔ Passed o k rest
Passed-all_pass o zero rest h = ((λ z. tt), λ z. refl)
Passed-all_pass o (suc k) [] h = ((λ z. cc), λ z. absurd z)
Passed-all_pass o (suc k) (a ∷ rest) (x, e, h) =
    rw (results-cons o a x rest e) (first_passes o k a rest x e (Passed-all_pass o k rest h))

module _ (find : (name filter : String) → Bool) (o : Settings) where
  pub run_suite-run_tests :
      (ts : List Test) (c : Counts)
      → Ready o ts
      → run_suite find o ts c ≡ progress (run_tests find o (cases o ts) c)
  unfolding run_suite run_tests
  run_suite-run_tests [] c h = refl
  run_suite-run_tests (t ∷ ts) c (enough, answered, h) =
      rw (run_rounds-test_rounds o t.attempts 0 c answered)
        (elim (Option-cases (test_rounds o.repeat 0 (results o t.attempts) c)) [
          | inl e ↦
              rw e (ground (arith, run_suite-run_tests ts (record c { skipped = c.skipped + 1 }) h))
          | inr (c', e) ↦ rw e (
              ground (
                arith,
                run_suite-run_tests ts (record c { skipped = c.skipped + 1 }) h,
                run_suite-run_tests ts c' h,
              ))
        ])

  -- Some test is to run.
  abbrev pub SomeSelected : List Test → Type 0
  SomeSelected [] = ⊥
  SomeSelected (t ∷ ts) = (selected find o t.entry ≡ true) ⊎ SomeSelected ts

  -- The tests that are to run pass in all their rounds.
  abbrev pub AllPassed : List Test → Type 0
  AllPassed [] = Unit
  AllPassed (t ∷ ts) =
      (selected find o t.entry ≡ true → Passed o o.repeat t.attempts) × AllPassed ts

  pub selected-cases : (ts : List Test) → AnySelected find o (cases o ts) ↔ SomeSelected ts
  selected-cases [] = ((λ h. h), λ h. h)
  selected-cases (t ∷ ts) =
      let (to, from) = selected-cases ts in ((λ h. ground (arith, to)), λ h. ground (arith, from))

  pub passed-cases : (ts : List Test) → Ready o ts → AllPass find o (cases o ts) ↔ AllPassed ts
  passed-cases [] h = ((λ h. h), λ h. h)
  passed-cases (t ∷ ts) (enough, answered, h) =
      let (to, from) = passed-cases ts h in
      let (to', from') = Passed-all_pass o o.repeat t.attempts answered in
      ((λ z. ((λ e. to' (z.0 e)), to z.1)), λ z. ((λ e. from' (z.0 e)), from z.1))

  pub Runs-cases : (ts : List Test) → Ready o ts → Runs find o (cases o ts)
  Runs-cases [] h = tt
  Runs-cases (t ∷ ts) (enough, answered, h) =
      (omega (arith, length-results o t.attempts answered, enough), Runs-cases ts h)
