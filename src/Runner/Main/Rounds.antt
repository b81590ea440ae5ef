-- ===== src/Runner/Main/Rounds.antt =====
-- How the rounds of one test end in `main` of tests/para_test.cpp, also when the process does.
use paracore.Base.{
  ℕ, zero, suc, ◌⊎◌, inl, inr, ◌+◌, ◌-◌, ◌^◌, ◌≤◌, ◌<◌, ◌≡◌, ◌≢◌, refl, sym, ap, ◌∙◌, true, false,
  List, [], ◌∷◌, length, lt→ltb, arith,
}
use paracore.Runner.{Outcome, Counts, round, Settings}
use paracore.Runner.Rounds.{counted}
use paracore.Runner.Main.{Called, in_process, Attempt, Tried, Progress, attempted, run_rounds}
use paracore.Runner.Main.Outcomes.{Passed, attempted_iff}

-- No call ends the process of the runner with 0.
abbrev pub NoneExits0 : Settings → List Attempt → Type 0
NoneExits0 o [] = Unit
NoneExits0 o (a ∷ rest) = (o.no_fork ≡ true → a.call ≢ Called.exits 0) × NoneExits0 o rest

-- `main` goes no further, and not with the exit code 0.
abbrev pub Stopped : Progress → Type 0
Stopped (Progress.counts c) = ⊥
Stopped (Progress.exits code) = code ≢ 0
Stopped (Progress.killed sig) = Unit
Stopped Progress.waits = Unit

-- How the inner loop ends that has `k` rounds to go.
abbrev pub Ends : Settings → Counts → ℕ → List Attempt → Progress → Type 0
Ends o c k rest p =
    ((p ≡ Progress.counts (counted true c)) × Passed o k rest)
    ⊎ ((Passed o k rest → ⊥) × ((p ≡ Progress.counts (counted false c)) ⊎ Stopped p))

in_process-exits :
    (k : Called) (code : ℕ) → k ≢ Called.exits 0 → in_process k ≡ Tried.exits code → code ≢ 0
unfolding in_process
in_process-exits Called.returns code h e z = cc
in_process-exits (Called.exits n) code h e z =
    let same : n ≡ code = ground arith in h (ap Called.exits (same ∙ z))
in_process-exits (Called.killed sig) code h e z = cc
in_process-exits Called.hangs code h e z = cc

attempted-exits :
    (o : Settings) (a : Attempt) (code : ℕ)
    → (o.no_fork ≡ true → a.call ≢ Called.exits 0)
    → attempted o a ≡ Tried.exits code
    → code ≢ 0
unfolding attempted
attempted-exits o a code h e z = ground (arith, in_process-exits a.call code)

over :
    (o : Settings) (rest : List Attempt) (r : ℕ) (c : Counts)
    → o.repeat ≤ r
    → run_rounds o r rest c ≡ Progress.counts c
unfolding run_rounds
over o [] r c h = ground arith
over o (a ∷ rest) r c h = ground arith

round-pass :
    (repeat r : ℕ) (c : Counts)
    → r + 1 < repeat
    → repeat < 2 ^ 32 - 1
    → round repeat r Outcome.pass c ≡ (c, r + 1)
unfolding round
round-pass repeat r c h few = ground arith

round-last :
    (repeat r : ℕ) (c : Counts)
    → r + 1 ≡ repeat
    → repeat < 2 ^ 32 - 1
    → round repeat r Outcome.pass c ≡ (counted true c, r + 1)
unfolding round
round-last repeat r c h few = ground arith

round-failed :
    (repeat r : ℕ) (x : Outcome) (c : Counts)
    → x ≢ Outcome.pass
    → repeat < 2 ^ 32 - 1
    → round repeat r x c ≡ (counted false c, repeat + 1)
unfolding round
round-failed repeat r x c h few = ground arith

run_rounds-pass :
    (o : Settings) (a : Attempt) (rest : List Attempt) (r : ℕ) (c : Counts)
    → attempted o a ≡ Tried.result Outcome.pass
    → r + 1 < o.repeat
    → o.repeat < 2 ^ 32 - 1
    → run_rounds o r (a ∷ rest) c ≡ run_rounds o (r + 1) rest c
unfolding run_rounds
run_rounds-pass o a rest r c e h few =
    rw (e, lt→ltb r o.repeat (omega (arith, h)), round-pass o.repeat r c h few) refl

run_rounds-last :
    (o : Settings) (a : Attempt) (rest : List Attempt) (r : ℕ) (c : Counts)
    → attempted o a ≡ Tried.result Outcome.pass
    → r + 1 ≡ o.repeat
    → o.repeat < 2 ^ 32 - 1
    → run_rounds o r (a ∷ rest) c ≡ Progress.counts (counted true c)
unfolding run_rounds
run_rounds-last o a rest r c e h few =
    rw (e, lt→ltb r o.repeat (omega (arith, h)), round-last o.repeat r c h few)
      (over o rest (r + 1) (counted true c) (omega (arith, h)))

-- A round with an outcome that is not a pass is the last.
run_rounds-failed :
    (o : Settings) (a : Attempt) (rest : List Attempt) (r : ℕ) (c : Counts) (x : Outcome)
    → attempted o a ≡ Tried.result x
    → x ≢ Outcome.pass
    → r < o.repeat
    → o.repeat < 2 ^ 32 - 1
    → run_rounds o r (a ∷ rest) c ≡ Progress.counts (counted false c)
unfolding run_rounds
run_rounds-failed o a rest r c x e n h few =
    rw (e, lt→ltb r o.repeat h, round-failed o.repeat r x c n few)
      (over o rest (o.repeat + 1) (counted false c) (omega arith))

-- So is one without.
run_rounds-Stopped :
    (o : Settings) (a : Attempt) (rest : List Attempt) (r : ℕ) (c : Counts) (x : Tried)
    → attempted o a ≡ x
    → ((y : Outcome) → x ≢ Tried.result y)
    → ((code : ℕ) → x ≡ Tried.exits code → code ≢ 0)
    → r < o.repeat
    → Stopped (run_rounds o r (a ∷ rest) c)
unfolding run_rounds
run_rounds-Stopped o a rest r c (Tried.result y) e n z h = absurd (n y refl)
run_rounds-Stopped o a rest r c (Tried.exits code) e n z h =
    rw (e, lt→ltb r o.repeat h) (z code refl)
run_rounds-Stopped o a rest r c (Tried.killed sig) e n z h = rw (e, lt→ltb r o.repeat h) tt
run_rounds-Stopped o a rest r c Tried.waits e n z h = rw (e, lt→ltb r o.repeat h) tt

-- How the first round comes to the `switch`, if it does.
Tried-cases :
    (x : Tried)
    → (x ≡ Tried.result Outcome.pass)
      ⊎ (((y : Outcome) × (x ≡ Tried.result y) × (y ≢ Outcome.pass))
          ⊎ ((y : Outcome) → x ≢ Tried.result y))
Tried-cases (Tried.result Outcome.pass) = inl refl
Tried-cases (Tried.result Outcome.fail) = inr (inl (Outcome.fail, refl, λ e. cc))
Tried-cases (Tried.result Outcome.timeout) = inr (inl (Outcome.timeout, refl, λ e. cc))
Tried-cases (Tried.result (Outcome.signal n)) = inr (inl (Outcome.signal n, refl, λ e. cc))
Tried-cases (Tried.exits code) = inr (inr (λ y e. cc))
Tried-cases (Tried.killed sig) = inr (inr (λ y e. cc))
Tried-cases Tried.waits = inr (inr (λ y e. cc))

outcome_of : (x y : Outcome) (t : Tried) → t ≡ Tried.result x → t ≡ Tried.result y → x ≡ y
outcome_of x y t e e' = let same : Tried.result x ≡ Tried.result y = sym e ∙ e' in ground arith

-- The rounds from `r` on, if the first passes as told and else.
step-Ends :
    (o : Settings) (a : Attempt) (rest : List Attempt) (k r : ℕ) (c : Counts)
    → r < o.repeat
    → o.repeat < 2 ^ 32 - 1
    → (o.no_fork ≡ true → a.call ≢ Called.exits 0)
    → (attempted o a ≡ Tried.result Outcome.pass
        → Ends o c (suc k) (a ∷ rest) (run_rounds o r (a ∷ rest) c))
    → Ends o c (suc k) (a ∷ rest) (run_rounds o r (a ∷ rest) c)
step-Ends o a rest k r c here few ends passes = elim (Tried-cases (attempted o a)) [
  | inl e ↦ passes e
  | inr (inl (y, e, n)) ↦ inr (
    (λ z. n (outcome_of y Outcome.pass (attempted o a) e ((attempted_iff o a).1 z.0))),
    inl (run_rounds-failed o a rest r c y e n here few),
  )
  | inr (inr n) ↦ inr (
    (λ z. n Outcome.pass ((attempted_iff o a).1 z.0)),
    inr (
        run_rounds-Stopped o a rest r c (attempted o a) refl n
          (λ code e. attempted-exits o a code ends e) here),
  )
]

-- A pass before the rounds that are left.
after_pass :
    (o : Settings) (a : Attempt) (rest : List Attempt) (k : ℕ) (c : Counts) (p : Progress)
    → attempted o a ≡ Tried.result Outcome.pass
    → Ends o c k rest p
    → Ends o c (suc k) (a ∷ rest) p
after_pass o a rest k c p e (inl (q, h)) = inl (q, ((attempted_iff o a).0 e, h))
after_pass o a rest k c p e (inr (n, q)) = inr ((λ z. n z.1), q)

pub run_rounds-Ends :
    (o : Settings) (rest : List Attempt) (k r : ℕ) (c : Counts)
    → r + suc k ≡ o.repeat
    → o.repeat < 2 ^ 32 - 1
    → suc k ≤ length rest
    → NoneExits0 o rest
    → Ends o c (suc k) rest (run_rounds o r rest c)
run_rounds-Ends o [] k r c sum few long h = absurd (omega (arith, long))
run_rounds-Ends o (a ∷ rest) zero r c sum few long (ends, h) =
    step-Ends o a rest zero r c (omega (arith, sum)) few ends (λ e.
      inl (run_rounds-last o a rest r c e (omega (arith, sum)) few, ((attempted_iff o a).0 e, tt)))
run_rounds-Ends o (a ∷ rest) (suc k) r c sum few long (ends, h) =
    step-Ends o a rest (suc k) r c (omega (arith, sum)) few ends (λ e.
      rw (run_rounds-pass o a rest r c e (omega (arith, sum)) few) (
        after_pass o a rest (suc k) c (run_rounds o (r + 1) rest c) e
          (run_rounds-Ends o rest k (r + 1) c (omega (arith, sum)) few (omega (arith, long)) h)))
