-- ===== src/Canary/Gate.antt =====
-- What the gate of tests/canary_deadlock.cpp is for.
use paracore.Base.{
  ℕ, ◌+◌, ◌*◌, ◌≤◌, ◌<◌, ◌≡◌, ◌≢◌, ◌⊎◌, inl, inr, refl, sym, ap, ◌∙◌, subst, true, arith,
}
use paracore.Core.Status.{Errno}
use paracore.Core.Outcome.{Outcome, Returns, Aborts}
use paracore.Canary.{
  Ab, Ba, Canary, step_ab, step_ba, Reach, begins, steps_ab, steps_ba, spurious, init,
}
use paracore.Canary.Measure.{left, Less, ab-Less, ba-Less, woken-left}
use paracore.Canary.Shape.{state_of, allowed, Shaped, Keeps, ab-Keeps, ba-Keeps}

-- A thread can go on, or both are through.
abbrev pub GoesOn : Errno → Canary → Type 0
GoesOn os s =
    ((s.ab ≡ Ab.finished) × (s.ba ≡ Ba.finished))
    ⊎ (Returns (step_ab os s.ab s) ⊎ Returns (step_ba os s.ba s))

shape-GoesOn : (os : Errno) (p : Ab) (q : Ba) → allowed p q ≡ true → GoesOn os (state_of p q)
unfolding step_ab step_ba
shape-GoesOn os Ab.lock_a Ba.lock_g h = inr (inl tt)
shape-GoesOn os p q h = ground arith

waking : (p : Ab) → (record (state_of p Ba.asleep) { ba = Ba.woken }) ≡ state_of p Ba.woken
waking Ab.lock_a = refl
waking p = ground arith

module _ (os : Errno) where
  ab-Shaped : (s : Canary) → Shaped s → Keeps os (step_ab os s.ab s)
  ab-Shaped s (e, h) =
      subst (λ (z : Canary). Keeps os (step_ab os s.ab z)) (sym e) (ab-Keeps os s.ab s.ba h)

  ba-Shaped : (s : Canary) → Shaped s → Keeps os (step_ba os s.ba s)
  ba-Shaped s (e, h) =
      subst (λ (z : Canary). Keeps os (step_ba os s.ba z)) (sym e) (ba-Keeps os s.ab s.ba h)

  woken-Shaped : (s : Canary) → Shaped s → s.ba ≡ Ba.asleep → Shaped (record s { ba = Ba.woken })
  woken-Shaped s (e, h) f = (
    ap (λ (z : Canary). record z { ba = Ba.woken }) (e ∙ ap (state_of s.ab) f) ∙ waking s.ab,
    refl,
  )

  Reach-Shaped : {k w : ℕ} {s : Canary} → Reach os init k w s → Shaped s
  Reach-Shaped begins = (refl, refl)
  Reach-Shaped (steps_ab {s} {s'} r e) = subst (Keeps os) e (ab-Shaped s (Reach-Shaped r))
  Reach-Shaped (steps_ba {s} {s'} r e) = subst (Keeps os) e (ba-Shaped s (Reach-Shaped r))
  Reach-Shaped (spurious {s} r e) = woken-Shaped s (Reach-Shaped r) e

  ab-left : (s : Canary) → Shaped s → Less os (left s) (step_ab os s.ab s)
  ab-left s (e, h) =
      subst (λ (z : Canary). Less os (left z) (step_ab os s.ab z)) (sym e) (ab-Less os s.ab s.ba h)

  ba-left : (s : Canary) → Shaped s → Less os (left s) (step_ba os s.ba s)
  ba-left s (e, h) =
      subst (λ (z : Canary). Less os (left z) (step_ba os s.ba z)) (sym e) (ba-Less os s.ab s.ba h)

  -- Each step takes the program nearer to its end, and waking unasked takes it back by two at most.
  Reach-left : {k w : ℕ} {s : Canary} → Reach os init k w s → k + left s ≤ 18 + 2 * w
  Reach-left begins = omega arith
  Reach-left (steps_ab {k} {w} {s} {s'} r e) =
      let less : left s' < left s = subst (Less os (left s)) e (ab-left s (Reach-Shaped r)) in
      omega (arith, less, Reach-left r)
  Reach-left (steps_ba {k} {w} {s} {s'} r e) =
      let less : left s' < left s = subst (Less os (left s)) e (ba-left s (Reach-Shaped r)) in
      omega (arith, less, Reach-left r)
  Reach-left (spurious {k} {w} {s} r e) =
      let before : k + left s ≤ 18 + 2 * w = Reach-left r in
      omega (arith, woken-left s.ab s.first_done s.ba e, before)

not-Aborts : (os : Errno) (o : Outcome Canary) → Keeps os o → ¬ Aborts o
not-Aborts os (Outcome.returns s) k a = a
not-Aborts os (Outcome.aborts m) k a = k
not-Aborts os Outcome.blocks k a = a

-- In every state that canary_deadlock.cpp reaches, also when the waiting thread wakes unasked, no
-- step aborts, and some thread can make its next step unless both are through: the gate rules out
-- the deadlock, and no wakeup is lost. And the threads have made at most 18 steps, and two more for
-- each time that the waiting thread woke unasked.
pub gate_prevents :
    (os : Errno) {k w : ℕ} {s : Canary}
    → Reach os init k w s
    → GoesOn os s
      × (¬ Aborts (step_ab os s.ab s))
      × (¬ Aborts (step_ba os s.ba s))
      × (k ≤ 18 + 2 * w)
gate_prevents os {k} {w} {s} r =
    let (e, h) = Reach-Shaped os r in
    (
      subst (GoesOn os) (sym e) (shape-GoesOn os s.ab s.ba h),
      not-Aborts os (step_ab os s.ab s) (ab-Shaped os s (e, h)),
      not-Aborts os (step_ba os s.ba s) (ba-Shaped os s (e, h)),
      omega (arith, Reach-left os r),
    )

-- If the flag of the gate is up from the start, canary_deadlock.cpp reaches a state in which both
-- threads block and neither is through.
pub ungated_deadlocks :
    (os : Errno)
    → (s : Canary) × Reach os (record init { first_done = true }) 5 0 s
      × (step_ab os s.ab s ≡ Outcome.blocks)
      × (step_ba os s.ba s ≡ Outcome.blocks)
      × (s.ab ≢ Ab.finished)
      × (s.ba ≢ Ba.finished)
unfolding step_ab step_ba
ungated_deadlocks os = (
  _,
  steps_ab (steps_ba (steps_ba (steps_ba (steps_ba begins refl) refl) refl) refl) refl,
  refl,
  refl,
  (λ e. cc),
  (λ e. cc),
)
