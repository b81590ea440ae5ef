-- ===== src/Runner/Report/Counted.antt =====
-- The lines of a run of tests/para_test.cpp, and the numbers of its summary.
use paracore.Base.{
  ℕ, ◌+◌, ◌≡◌, refl, subst, String, Bool, true, false, none, some, List, [], ◌∷◌, ◌++◌, ltb,
  if◌then◌else◌, inl, inr, Bool-cases, Option-cases, arith,
}
use paracore.Runner.{Outcome, Counts, round, test_rounds, Settings, Case, selected, run_tests}
use paracore.Runner.Verdict.{nothing}
use paracore.Runner.Report.{
  Line, round_lines, next_round, test_lines, suite_lines, last_lines, run_lines,
}

-- The lines of tests that passed, and of tests that did not.
abbrev pub oks : List Line → ℕ
oks [] = 0
oks (Line.ok name ∷ ls) = 1 + oks ls
oks (l ∷ ls) = oks ls

abbrev pub complaints : List Line → ℕ
complaints [] = 0
complaints (Line.failed name ∷ ls) = 1 + complaints ls
complaints (Line.timed_out name ∷ ls) = 1 + complaints ls
complaints (Line.signalled name sig ∷ ls) = 1 + complaints ls
complaints (l ∷ ls) = complaints ls

oks-append : (ls ms : List Line) → oks (ls ++ ms) ≡ oks ls + oks ms
oks-append [] ms = omega arith
oks-append (Line.ok name ∷ ls) ms = omega (arith, oks-append ls ms)
oks-append (l ∷ ls) ms = oks-append ls ms

complaints-append : (ls ms : List Line) → complaints (ls ++ ms) ≡ complaints ls + complaints ms
complaints-append [] ms = omega arith
complaints-append (Line.failed name ∷ ls) ms = omega (arith, complaints-append ls ms)
complaints-append (Line.timed_out name ∷ ls) ms = omega (arith, complaints-append ls ms)
complaints-append (Line.signalled name sig ∷ ls) ms = omega (arith, complaints-append ls ms)
complaints-append (l ∷ ls) ms = complaints-append ls ms

-- The counters have gone up by the lines of each kind.
pub record Tallied (ls : List Line) (c c' : Counts) : Type 0 where
  pub passed : c'.passed ≡ c.passed + oks ls
  pub failed : c'.failed ≡ c.failed + complaints ls

Tallied-append :
    {ls ms : List Line} {c c' c'' : Counts}
    → Tallied ls c c'
    → Tallied ms c' c''
    → Tallied (ls ++ ms) c c''
Tallied-append {ls} {ms} a b = record {
  passed = omega (arith, a.passed, b.passed, oks-append ls ms);
  failed = omega (arith, a.failed, b.failed, complaints-append ls ms);
}

round-Tallied :
    (repeat r : ℕ) (name : String) (o : Outcome) (c : Counts)
    → Tallied (round_lines repeat r name o) c (round repeat r o c).0
      × ((round repeat r o c).1 ≡ next_round repeat r o)
unfolding round_lines round next_round
round-Tallied repeat r name Outcome.pass c =
    (record { passed = ground arith; failed = ground arith }, refl)
round-Tallied repeat r name Outcome.fail c =
    (record { passed = omega arith; failed = omega arith }, refl)
round-Tallied repeat r name Outcome.timeout c =
    (record { passed = omega arith; failed = omega arith }, refl)
round-Tallied repeat r name (Outcome.signal sig) c =
    (record { passed = omega arith; failed = omega arith }, refl)

none-Tallied : {c c' : Counts} → c ≡ c' → Tallied [] c c'
none-Tallied {c} e = subst (Tallied [] c) e (record { passed = omega arith; failed = omega arith })

some-inj : {c c' : Counts} → some c ≡ some c' → c ≡ c'
some-inj e = cc

-- The loop is over, or runs are left to come.
over-same : (b : Bool) (c c' : Counts) → (if b then none else some c) ≡ some c' → c ≡ c'
over-same true c c' e = cc
over-same false c c' e = cc

test-Tallied :
    (repeat r : ℕ) (name : String) (os : List Outcome) (c c' : Counts)
    → test_rounds repeat r os c ≡ some c'
    → Tallied (test_lines repeat r name os) c c'
unfolding test_rounds test_lines
test-Tallied repeat r name [] c c' e = none-Tallied (over-same (ltb r repeat) c c' e)
test-Tallied repeat r name (o ∷ os) c c' e =
    let (one, next) = round-Tallied repeat r name o c in
    elim (Bool-cases (ltb r repeat)) [
      | inl more ↦ rw more (
          Tallied-append one (
            test-Tallied repeat (next_round repeat r o) name os (round repeat r o c).0 c'
              (rw (more, next) at e)))
      | inr over ↦ rw over (none-Tallied (some-inj (rw over at e)))
    ]

last-counts : (c : Counts) → (oks (last_lines c) ≡ 0) × (complaints (last_lines c) ≡ 0)
unfolding last_lines
last-counts c = (ground arith, ground arith)

module _ (find : (name filter : String) → Bool) (o : Settings) where
  suite-Tallied :
      (ts : List Case) (c c' : Counts)
      → run_tests find o ts c ≡ some c'
      → Tallied (suite_lines find o ts) c c'
  unfolding run_tests suite_lines
  suite-Tallied [] c c' e = none-Tallied (some-inj e)
  suite-Tallied (t ∷ ts) c c' e = elim (Bool-cases (selected find o t.entry)) [
    | inl chosen ↦ elim (Option-cases (test_rounds o.repeat 0 t.runs c)) [
      | inl more ↦ let never : none ≡ some c' = rw (chosen, more) at e in cc
      | inr (mid, over) ↦ rw chosen (
          Tallied-append (test-Tallied o.repeat 0 t.entry.name t.runs c mid over)
            (suite-Tallied ts mid c' (rw (chosen, over) at e)))
    ]
    | inr skipped ↦
        let rest = suite-Tallied ts (record c { skipped = c.skipped + 1 }) c' (rw skipped at e) in
        rw skipped (record { passed = rest.passed; failed = rest.failed })
  ]

  -- The summary of a run is true to its lines: whenever the loops of `main` end, whatever the
  -- options and the outcomes, the numbers of passed and failed tests are the number of the lines
  -- that say ok, and of those that say FAIL, TIMEOUT or SIGNAL.
  pub report_true :
      (registered : ℕ) (ts : List Case) (c : Counts)
      → run_tests find o ts nothing ≡ some c
      → (c.passed ≡ oks (run_lines find registered o ts c))
        × (c.failed ≡ complaints (run_lines find registered o ts c))
  unfolding run_lines
  report_true registered ts c e =
      let all : Tallied (suite_lines find o ts) nothing c = suite-Tallied ts nothing c e in
      let (no_ok, no_complaint) = last-counts c in
      (
        omega (arith, all.passed, no_ok, oks-append (suite_lines find o ts) (last_lines c)),
        omega (
          arith,
          all.failed,
          no_complaint,
          complaints-append (suite_lines find o ts) (last_lines c),
        ),
      )
