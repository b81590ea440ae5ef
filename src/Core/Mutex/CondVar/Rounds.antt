-- ===== src/Core/Mutex/CondVar/Rounds.antt =====
-- The loops of the predicate forms of `CondVar::wait` and `CondVar::wait_for`.
use paracore.Base.{
  inl, inr, Bool, ℕ, ◌+◌, ◌*◌, ◌≤◌, ◌<◌, ◌≡◌, ◌≢◌, ◌↔◌, ◌⊎◌, refl, true, false, none, some, List,
  [], ◌∷◌, arith,
}
use paracore.Core.Status.{Errno}
use paracore.Core.Outcome.{Outcome}
use paracore.Core.Mutex.CondVar.{Round, left, wait_for, wait}

-- A round in which the loop goes on: the predicate fails and the deadline is ahead.
abbrev pub GoesOn : ℕ → Round → Type 0
GoesOn until r = (r.stop ≡ false) × (r.now < until)

-- Some round ends the loop, and those before it go on.
abbrev pub EndsBy : (Round → Type 0) → ℕ → List Round → Type 0
EndsBy P until [] = ⊥
EndsBy P until (r ∷ rounds) = P r ⊎ (GoesOn until r × EndsBy P until rounds)

-- The predicate holds in the round, or is tried again after the deadline and holds.
abbrev pub Woken : ℕ → Round → Type 0
Woken until r = (r.stop ≡ true) ⊎ ((r.stop ≡ false) × (until ≤ r.now) × (r.at_deadline ≡ true))

-- The predicate fails twice in the round, the second time after the deadline.
abbrev pub Late : ℕ → Round → Type 0
Late until r = (r.stop ≡ false) × (until ≤ r.now) × (r.at_deadline ≡ false)

-- The predicate form of `wait_for` gives `true` exactly when, after rounds in which the predicate
-- failed ahead of the deadline, a round comes in which the predicate holds, or fails and then holds
-- when it is tried again after the deadline.
wait_for-true :
    (until : ℕ) (rounds : List Round)
    → ((wait_for until rounds).0 ≡ some true) ↔ EndsBy (Woken until) until rounds
unfolding wait_for
wait_for-true until [] = ((λ h. cc), λ h. absurd h)
wait_for-true until (r ∷ rounds) =
    let (to, from) = wait_for-true until rounds in
    ((λ h. ground (arith, to)), λ h. ground (arith, from))

-- The predicate form of `wait_for` gives `false` exactly when, after rounds in which the predicate
-- failed ahead of the deadline, a round comes in which the deadline has passed and the predicate
-- fails before and after the clock is read.
wait_for-false :
    (until : ℕ) (rounds : List Round)
    → ((wait_for until rounds).0 ≡ some false) ↔ EndsBy (Late until) until rounds
unfolding wait_for
wait_for-false until [] = ((λ h. cc), λ h. absurd h)
wait_for-false until (r ∷ rounds) =
    let (to, from) = wait_for-false until rounds in
    ((λ h. ground (arith, to)), λ h. ground (arith, from))

-- The loop goes on after every round.
abbrev pub AllGoOn : ℕ → List Round → Type 0
AllGoOn until [] = Unit
AllGoOn until (r ∷ rounds) = GoesOn until r × AllGoOn until rounds

wait_for-none :
    (until : ℕ) (rounds : List Round) → ((wait_for until rounds).0 ≡ none) ↔ AllGoOn until rounds
unfolding wait_for
wait_for-none until [] = ((λ h. tt), λ h. refl)
wait_for-none until (r ∷ rounds) =
    let (to, from) = wait_for-none until rounds in
    ((λ h. ground (arith, to)), λ h. ground (arith, from))

-- The predicate form of `wait_for`, after rounds in which the predicate failed ahead of the
-- deadline: it gives `true` exactly when a round comes in which the predicate holds, or fails and
-- holds when tried again after the deadline; it gives `false` exactly when a round comes in which
-- the deadline has passed and the predicate fails both times; and it has not returned exactly when
-- no other round has come.
pub wait_for_iff :
    (until : ℕ) (rounds : List Round)
    → (((wait_for until rounds).0 ≡ some true) ↔ EndsBy (Woken until) until rounds)
      × (((wait_for until rounds).0 ≡ some false) ↔ EndsBy (Late until) until rounds)
      × (((wait_for until rounds).0 ≡ none) ↔ AllGoOn until rounds)
wait_for_iff until rounds =
    (wait_for-true until rounds, wait_for-false until rounds, wait_for-none until rounds)

-- The clock has reached the deadline in some round.
abbrev Passed : ℕ → List Round → Type 0
Passed until [] = ⊥
Passed until (r ∷ rounds) = (until ≤ r.now) ⊎ Passed until rounds

-- The predicate form of `wait_for` returns if the clock has reached the deadline in some round,
-- whatever the predicate answers.
wait_for-returns :
    (until : ℕ) (rounds : List Round) → Passed until rounds → (wait_for until rounds).0 ≢ none
unfolding wait_for
wait_for-returns until [] p h = p
wait_for-returns until (r ∷ rounds) p h = ground (arith, wait_for-returns until rounds)

-- `ms` milliseconds from `now` on end by `until`, less than a millisecond before it, and are 0 only
-- in the last millisecond.
abbrev pub Fits : (until now ms : ℕ) → Type 0
Fits until now ms =
    (now + ms * 1000000 ≤ until)
    × (until < now + ms * 1000000 + 1000000)
    × ((ms ≡ 0) ↔ (until < now + 1000000))

-- One wait for each round that goes on, and none from the first that does not.
abbrev pub WaitsFit : ℕ → List Round → List ℕ → Type 0
WaitsFit until [] [] = Unit
WaitsFit until [] (ms ∷ waits) = ⊥
WaitsFit until (r ∷ rounds) [] = GoesOn until r → ⊥
WaitsFit until (r ∷ rounds) (ms ∷ waits) =
    GoesOn until r × Fits until r.now ms × WaitsFit until rounds waits

round_cases : (until : ℕ) (r : Round) → GoesOn until r ⊎ (GoesOn until r → ⊥)
round_cases until r = ground arith

wait_for-ends :
    (until : ℕ) (r : Round) (rounds : List Round)
    → (GoesOn until r → ⊥)
    → (wait_for until (r ∷ rounds)).1 ≡ []
unfolding wait_for
wait_for-ends until r rounds n = ground (arith, n)

wait_for-GoesOn :
    (until : ℕ) (r : Round) (rounds : List Round)
    → GoesOn until r
    → (wait_for until (r ∷ rounds)).1 ≡ left until r.now ∷ (wait_for until rounds).1
unfolding wait_for
wait_for-GoesOn until r rounds (e, h) = rw e (ground (arith, h))

left-Fits : (until now : ℕ) → now < until → Fits until now (left until now)
unfolding left
left-Fits until now h = ground arith

-- The predicate form of `wait_for` makes one wait in each round in which the predicate failed ahead
-- of the deadline, and none from the first other round on. None of its waits reaches past the
-- deadline, each falls short of it by less than a millisecond, and its timeout is 0 exactly in the
-- last millisecond.
pub wait_for-WaitsFit :
    (until : ℕ) (rounds : List Round) → WaitsFit until rounds (wait_for until rounds).1
unfolding wait_for
wait_for-WaitsFit until [] = tt
wait_for-WaitsFit until (r ∷ rounds) = elim (round_cases until r) [
  | inl h ↦
      rw (wait_for-GoesOn until r rounds h)
        (h, left-Fits until r.now h.1, wait_for-WaitsFit until rounds)
  | inr n ↦ rw (wait_for-ends until r rounds n) n
]

-- A round of `wait` in which the predicate fails, and the wait returns 0.
abbrev pub Rests : Bool × ℕ → Type 0
Rests (stop, rc) = (stop ≡ false) × (rc ≡ 0)

-- The predicate holds in some round, and `wait` rests in those before it.
abbrev pub Stops : List (Bool × ℕ) → Type 0
Stops [] = ⊥
Stops (r ∷ rounds) = (r.0 ≡ true) ⊎ (Rests r × Stops rounds)

-- The predicate form of `CondVar::wait` returns exactly when a round comes in which the predicate
-- holds, after rounds in which it failed and `pthread_cond_wait` returned 0.
pub wait-returns_iff :
    (os : Errno) (rounds : List (Bool × ℕ)) → (wait os rounds ≡ Outcome.returns tt) ↔ Stops rounds
unfolding wait
wait-returns_iff os [] = ((λ h. cc), λ h. absurd h)
wait-returns_iff os (r ∷ rounds) =
    let (to, from) = wait-returns_iff os rounds in
    (λ h. ground (arith, to), λ h. ground (arith, from))
