-- ===== src/Suite/Handshake/Awaited.antt =====
-- What the handshake comes to.
use paracore.Base.{
  ℕ, ◌+◌, ◌*◌, ◌≤◌, ◌<◌, ◌≡◌, ◌≢◌, ◌⊎◌, inl, inr, refl, sym, ap, ◌∙◌, subst, Bool, true, false,
  none, arith,
}
use paracore.Core.Status.{Errno}
use paracore.Core.Outcome.{Outcome, Returns, Aborts}
use paracore.Suite.Handshake.{
  Setter, Waiter, Handshake, step_setter, step_waiter, Reach, begins, steps_setter, steps_waiter,
  spurious, init,
}
use paracore.Suite.Handshake.Shape.{
  state_of, allowed, Shaped, left_setter, left_waiter, left, Keeps, setter-Keeps, waiter-Keeps,
}

-- A thread can go on, or the test has ended with the flag up and the lock free.
abbrev pub GoesOn : Errno → Handshake → Type 0
GoesOn os s =
    ((s.waiter ≡ Waiter.finished) × (s.setter ≡ Setter.finished) × (s.ready ≡ true) × (s.m ≡ none))
    ⊎ (Returns (step_setter os s.setter s) ⊎ Returns (step_waiter os s.waiter s))

shape-GoesOn :
    (os : Errno) (p : Setter) (w : Waiter) → allowed p w ≡ true → GoesOn os (state_of p w)
unfolding step_setter step_waiter
shape-GoesOn os Setter.lock Waiter.lock h = inr (inl tt)
shape-GoesOn os p w h = ground arith

waking :
    (p : Setter)
    → (record (state_of p Waiter.asleep) { waiter = Waiter.woken }) ≡ state_of p Waiter.woken
waking p = refl

woken-left :
    (a : ℕ) (d : Bool) (w : Waiter)
    → w ≡ Waiter.asleep
    → a + left_waiter d Waiter.woken ≤ a + left_waiter d w + 2
woken-left a true w e = rw e (omega arith)
woken-left a false w e = rw e (omega arith)

not-failed : (p : Setter) (w : Waiter) → allowed p w ≡ true → w ≢ Waiter.failed
not-failed Setter.lock Waiter.lock h = λ e. cc
not-failed p w h = λ e. ground arith

module _ (os : Errno) where
  setter-Shaped : (s : Handshake) → Shaped s → Keeps os (left s) (step_setter os s.setter s)
  setter-Shaped s (e, h) =
      subst (λ (z : Handshake). Keeps os (left z) (step_setter os s.setter z)) (sym e)
        (setter-Keeps os s.setter s.waiter h)

  waiter-Shaped : (s : Handshake) → Shaped s → Keeps os (left s) (step_waiter os s.waiter s)
  waiter-Shaped s (e, h) =
      subst (λ (z : Handshake). Keeps os (left z) (step_waiter os s.waiter z)) (sym e)
        (waiter-Keeps os s.setter s.waiter h)

  woken-Shaped :
      (s : Handshake)
      → Shaped s
      → s.waiter ≡ Waiter.asleep
      → Shaped (record s { waiter = Waiter.woken })
  woken-Shaped s (e, h) f = (
    ap (λ (z : Handshake). record z { waiter = Waiter.woken }) (e ∙ ap (state_of s.setter) f)
        ∙ waking s.setter,
    refl,
  )

  -- The shape is kept, each step takes the test nearer to its end, and waking unasked takes it back
  -- by two at most.
  Reach-Shaped :
      {k w : ℕ} {s : Handshake} → Reach os init k w s → Shaped s × (k + left s ≤ 12 + 2 * w)
  Reach-Shaped begins = ((refl, refl), omega arith)
  Reach-Shaped (steps_setter {k} {w} {s} {s'} r e) =
      let (shaped, before) = Reach-Shaped r in
      let (after, less) : Shaped s' × (left s' < left s) =
        subst (Keeps os (left s)) e (setter-Shaped s shaped) in
      (after, omega (arith, less, before))
  Reach-Shaped (steps_waiter {k} {w} {s} {s'} r e) =
      let (shaped, before) = Reach-Shaped r in
      let (after, less) : Shaped s' × (left s' < left s) =
        subst (Keeps os (left s)) e (waiter-Shaped s shaped) in
      (after, omega (arith, less, before))
  Reach-Shaped (spurious {k} {w} {s} r e) =
      let (shaped, before) = Reach-Shaped r in
      (
        woken-Shaped s shaped e,
        omega (arith, woken-left (left_setter s.setter) s.ready s.waiter e, before),
      )

  not-Aborts : (n : ℕ) (o : Outcome Handshake) → Keeps os n o → ¬ Aborts o
  not-Aborts n (Outcome.returns s) k a = a
  not-Aborts n (Outcome.aborts m) k a = k
  not-Aborts n Outcome.blocks k a = a

-- No wakeup is lost in the two condition variable tests of test_core.cpp, also when the waiting
-- thread wakes unasked: in every state that they reach, the assertion has not failed, no step
-- aborts, and some thread can make its next step unless the test has ended, with the setter joined,
-- the flag up and the lock free. And the threads have made at most 12 steps, and two more for each
-- time that the waiting thread woke unasked.
pub no_wakeup_lost :
    (os : Errno) {k w : ℕ} {s : Handshake}
    → Reach os init k w s
    → (s.waiter ≢ Waiter.failed)
      × GoesOn os s
      × (¬ Aborts (step_setter os s.setter s))
      × (¬ Aborts (step_waiter os s.waiter s))
      × (k ≤ 12 + 2 * w)
no_wakeup_lost os {k} {w} {s} r =
    let ((e, h), bound) = Reach-Shaped os r in
    (
      not-failed s.setter s.waiter h,
      subst (GoesOn os) (sym e) (shape-GoesOn os s.setter s.waiter h),
      not-Aborts os _ (step_setter os s.setter s) (setter-Shaped os s (e, h)),
      not-Aborts os _ (step_waiter os s.waiter s) (waiter-Shaped os s (e, h)),
      omega (arith, bound),
    )
