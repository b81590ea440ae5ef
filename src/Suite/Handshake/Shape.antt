-- ===== src/Suite/Handshake/Shape.antt =====
-- The states that the handshake allows, and how many steps are left in each at most.
use paracore.Base.{
  ℕ, ◌+◌, ◌<◌, ◌≡◌, refl, Bool, true, false, not, Option, none, some, if◌then◌else◌, arith,
}
use paracore.Core.Status.{Errno}
use paracore.Core.Outcome.{Outcome}
use paracore.Suite.Handshake.{Setter, Waiter, Handshake, step_setter, step_waiter}

-- The setter has set the flag, holds the lock, is through.
abbrev pub is_ready : Setter → Bool
is_ready Setter.lock = false
is_ready Setter.set_ready = false
is_ready p = true

abbrev holds : Setter → Bool
holds Setter.lock = false
holds Setter.finished = false
holds p = true

abbrev is_finished : Setter → Bool
is_finished Setter.finished = true
is_finished p = false

-- The owner that follows from where the threads stand.
abbrev owner : Setter → Waiter → Option ℕ
owner p Waiter.test = some 1
owner p Waiter.assert_ready = some 1
owner p Waiter.unlock = some 1
owner p w = if holds p then some 2 else none

abbrev pub state_of : Setter → Waiter → Handshake
state_of p w = record { m = owner p w; ready = is_ready p; setter = p; waiter = w }

-- Where the threads can stand at the same time.
abbrev pub allowed : Setter → Waiter → Bool
allowed p Waiter.lock = true
allowed p Waiter.woken = true
allowed p Waiter.test = not (holds p)
allowed Setter.unlock Waiter.asleep = false
allowed Setter.finished Waiter.asleep = false
allowed p Waiter.asleep = true
allowed p Waiter.failed = false
allowed p w = is_finished p

-- The state is one of these.
abbrev pub Shaped : Handshake → Type 0
Shaped s = (s ≡ state_of s.setter s.waiter) × (allowed s.setter s.waiter ≡ true)

abbrev pub left_setter : Setter → ℕ
left_setter Setter.lock = 4
left_setter Setter.set_ready = 3
left_setter Setter.notify = 2
left_setter Setter.unlock = 1
left_setter Setter.finished = 0

-- Less once the flag is up, since the wait is over then.
abbrev pub left_waiter : Bool → Waiter → ℕ
left_waiter d Waiter.lock = 8
left_waiter d Waiter.test = if d then 4 else 7
left_waiter d Waiter.asleep = 6
left_waiter d Waiter.woken = if d then 5 else 8
left_waiter d Waiter.assert_ready = 3
left_waiter d Waiter.unlock = 2
left_waiter d Waiter.join = 1
left_waiter d Waiter.finished = 0
left_waiter d Waiter.failed = 0

abbrev pub left : Handshake → ℕ
left s = left_setter s.setter + left_waiter s.ready s.waiter

module _ (os : Errno) where
  -- A step of such a state does not abort, leads to one, and leaves fewer steps than `n`.
  abbrev pub Keeps : ℕ → Outcome Handshake → Type 0
  Keeps n (Outcome.returns s) = Shaped s × (left s < n)
  Keeps n (Outcome.aborts m) = ⊥
  Keeps n Outcome.blocks = Unit

  pub setter-Keeps :
      (p : Setter) (w : Waiter)
      → allowed p w ≡ true
      → Keeps (left (state_of p w)) (step_setter os p (state_of p w))
  unfolding step_setter
  setter-Keeps Setter.lock Waiter.lock h = ((refl, refl), omega arith)
  setter-Keeps p w h = ground arith

  pub waiter-Keeps :
      (p : Setter) (w : Waiter)
      → allowed p w ≡ true
      → Keeps (left (state_of p w)) (step_waiter os w (state_of p w))
  unfolding step_waiter
  waiter-Keeps Setter.lock Waiter.lock h = ((refl, refl), omega arith)
  waiter-Keeps p w h = ground arith
