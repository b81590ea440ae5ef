-- ===== src/Canary/Measure.antt =====
-- How many steps of tests/canary_deadlock.cpp are left at most.
use paracore.Base.{ℕ, ◌+◌, ◌≤◌, ◌<◌, ◌≡◌, Bool, true, false, if◌then◌else◌, arith}
use paracore.Core.Status.{Errno}
use paracore.Core.Outcome.{Outcome}
use paracore.Canary.{Ab, Ba, Canary, step_ab, step_ba}
use paracore.Canary.Shape.{state_of, allowed}

abbrev pub left_ab : Ab → ℕ
left_ab Ab.lock_a = 8
left_ab Ab.lock_b = 7
left_ab Ab.unlock_b = 6
left_ab Ab.unlock_a = 5
left_ab Ab.lock_g = 4
left_ab Ab.set_done = 3
left_ab Ab.notify = 2
left_ab Ab.unlock_g = 1
left_ab Ab.finished = 0

-- Less once the flag is up, since the gate is open then.
abbrev pub left_ba : Bool → Ba → ℕ
left_ba d Ba.lock_g = 10
left_ba d Ba.test = if d then 6 else 9
left_ba d Ba.asleep = 8
left_ba d Ba.woken = if d then 7 else 10
left_ba d Ba.unlock_g = 5
left_ba d Ba.lock_b = 4
left_ba d Ba.lock_a = 3
left_ba d Ba.unlock_a = 2
left_ba d Ba.unlock_b = 1
left_ba d Ba.finished = 0

abbrev pub left : Canary → ℕ
left s = left_ab s.ab + left_ba s.first_done s.ba

module _ (os : Errno) where
  abbrev pub Less : ℕ → Outcome Canary → Type 0
  Less m (Outcome.returns s) = left s < m
  Less m o = Unit

  pub ab-Less :
      (p : Ab) (q : Ba)
      → allowed p q ≡ true
      → Less (left (state_of p q)) (step_ab os p (state_of p q))
  unfolding step_ab
  ab-Less Ab.lock_a Ba.lock_g h = omega arith
  ab-Less p q h = ground arith

  pub ba-Less :
      (p : Ab) (q : Ba)
      → allowed p q ≡ true
      → Less (left (state_of p q)) (step_ba os q (state_of p q))
  unfolding step_ba
  ba-Less Ab.lock_a Ba.lock_g h = omega arith
  ba-Less p q h = ground arith

pub woken-left :
    (p : Ab) (d : Bool) (q : Ba)
    → q ≡ Ba.asleep
    → left_ab p + left_ba d Ba.woken ≤ left_ab p + left_ba d q + 2
woken-left p true q e = rw e (omega arith)
woken-left p false q e = rw e (omega arith)
