-- ===== src/Suite/Programs/Explore.antt =====
-- A search through all orders of the steps of a program, and what it is good for.
use paracore.Base.{
  ℕ, zero, suc, ◌+◌, ◌≤◌, ◌<◌, ◌≡◌, refl, subst, Bool, true, false, ◌&&◌, if◌then◌else◌, List, [],
  ◌∷◌, length, arith,
}
use paracore.Core.Status.{Errno}
use paracore.Core.Outcome.{Outcome}
use paracore.Suite.Programs.{
  Statement, Program, handled, execute, advance_main, advance_child, step_main, step_child, Runs,
  done, by_main, by_child,
}

-- How many statements a program has left.
abbrev pub left : Program → ℕ
left s = length s.main + length s.child

module _ (os : Errno) where
  abbrev holds_after : (Program → Bool) → Outcome Program → Bool
  holds_after p (Outcome.returns s) = p s
  holds_after p o = true

  -- The test holds of the program now, and after each of its next `n` steps in any order.
  unfoldable pub always : ℕ → (Program → Bool) → Program → Bool
  unfolding advance_main advance_child
  always zero p s = p s
  always (suc n) p s =
      p s
      && (holds_after (always n p) (step_main os s) && holds_after (always n p) (step_child os s))

  abbrev Less : ℕ → Outcome Program → Type 0
  Less n (Outcome.returns s) = left s ≤ n
  Less n o = Unit

  handled-length : (cs : List Statement) → length (handled cs) ≤ length cs
  handled-length [] = omega arith
  handled-length (Statement.handler ∷ cs) = omega arith
  handled-length (c ∷ cs) = ground (arith, handled-length cs)

  execute-Less : (t : ℕ) (c : Statement) (s : Program) → Less (left s) (execute os t c s)
  unfolding execute
  execute-Less t Statement.lock s = ground arith
  execute-Less t Statement.throws s = ground (arith, handled-length s.main)
  execute-Less t c s = ground arith

  below :
      (n : ℕ) (o : Outcome Program) (s' : Program) → Less n o → o ≡ Outcome.returns s' → left s' ≤ n
  below n o s' h e = subst (Less n) e h

  main-Less :
      (cs : List Statement) (s s' : Program)
      → advance_main os cs s ≡ Outcome.returns s'
      → left s' < length cs + length s.child
  unfolding advance_main
  main-Less [] s s' e = cc
  main-Less (c ∷ cs) s s' e =
      let next : Program = record s { main = cs } in
      omega (arith, below (left next) (execute os 1 c next) s' (execute-Less 1 c next) e)

  if-Less :
      (n : ℕ) (b : Bool) (o : Outcome Program) → Less n o → Less n (if b then o else Outcome.blocks)
  if-Less n true o h = h
  if-Less n false o h = tt

  child-Less :
      (cs : List Statement) (s s' : Program)
      → advance_child os cs s ≡ Outcome.returns s'
      → left s' < length s.main + length cs
  unfolding advance_child
  child-Less [] s s' e = cc
  child-Less (c ∷ cs) s s' e =
      let next : Program = record s { child = cs } in
      omega
        (arith, below (left next) _ s' (if-Less (left next) s.started _ (execute-Less 2 c next)) e)

  -- Each step of a program takes one of its statements.
  pub Runs-left : {k : ℕ} {s s' : Program} → Runs os k s s' → k + left s' ≤ left s
  Runs-left done = omega arith
  Runs-left (by_main {k} {s} {s'} {t} e r) = omega (arith, main-Less s.main s s' e, Runs-left r)
  Runs-left (by_child {k} {s} {s'} {t} e r) = omega (arith, child-Less s.child s s' e, Runs-left r)

  and-split : (a b : Bool) → (a && b) ≡ true → (a ≡ true) × (b ≡ true)
  and-split true b e = (refl, e)
  and-split false b e = ground arith

  -- What the search finds holds of every state that the program reaches.
  pub always-Runs :
      (n : ℕ) (p : Program → Bool) {k : ℕ} {s s' : Program}
      → always n p s ≡ true
      → Runs os k s s'
      → k ≤ n
      → p s' ≡ true
  unfolding always
  always-Runs zero p h done le = h
  always-Runs (suc n) p {s} h done le = (and-split (p s) _ h).0
  always-Runs zero p h (by_main e r) le = ground arith
  always-Runs zero p h (by_child e r) le = ground arith
  always-Runs (suc n) p {s} h (by_main {k} {s'} e r) le =
      let both : (holds_after (always n p) (step_main os s) ≡ true)
          × (holds_after (always n p) (step_child os s) ≡ true) =
        and-split _ _ (and-split (p s) _ h).1 in
      always-Runs n p (subst (λ o. holds_after (always n p) o ≡ true) e both.0) r (omega arith)
  always-Runs (suc n) p {s} h (by_child {k} {s'} e r) le =
      let both : (holds_after (always n p) (step_main os s) ≡ true)
          × (holds_after (always n p) (step_child os s) ≡ true) =
        and-split _ _ (and-split (p s) _ h).1 in
      always-Runs n p (subst (λ o. holds_after (always n p) o ≡ true) e both.1) r (omega arith)
