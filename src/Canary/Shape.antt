-- ===== src/Canary/Shape.antt =====
-- The states that the gate allows.
use paracore.Base.{ℕ, ◌≡◌, refl, Bool, true, false, not, Option, none, some, arith}
use paracore.Core.Status.{Errno}
use paracore.Core.Outcome.{Outcome}
use paracore.Canary.{Ab, Ba, Canary, step_ab, step_ba}

-- `lock_ab` has set the flag.
abbrev is_done : Ab → Bool
is_done Ab.notify = true
is_done Ab.unlock_g = true
is_done Ab.finished = true
is_done _ = false

-- The owners that follow from where the threads stand.
abbrev owner_a : Ab → Ba → Option ℕ
owner_a Ab.lock_b q = some 1
owner_a Ab.unlock_b q = some 1
owner_a Ab.unlock_a q = some 1
owner_a p Ba.unlock_a = some 2
owner_a p q = none

abbrev owner_b : Ab → Ba → Option ℕ
owner_b Ab.unlock_b q = some 1
owner_b p Ba.lock_a = some 2
owner_b p Ba.unlock_a = some 2
owner_b p Ba.unlock_b = some 2
owner_b p q = none

abbrev holds_g : Ab → Bool
holds_g Ab.set_done = true
holds_g Ab.notify = true
holds_g Ab.unlock_g = true
holds_g _ = false

abbrev owner_g : Ab → Ba → Option ℕ
owner_g Ab.set_done q = some 1
owner_g Ab.notify q = some 1
owner_g Ab.unlock_g q = some 1
owner_g p Ba.test = some 2
owner_g p Ba.unlock_g = some 2
owner_g p q = none

abbrev pub state_of : Ab → Ba → Canary
state_of p q = record {
  a = owner_a p q;
  b = owner_b p q;
  g = owner_g p q;
  first_done = is_done p;
  ab = p;
  ba = q;
}

abbrev is_finished : Ab → Bool
is_finished Ab.finished = true
is_finished _ = false

-- Where the threads can stand at the same time.
abbrev pub allowed : Ab → Ba → Bool
allowed p Ba.lock_g = true
allowed p Ba.woken = true
allowed p Ba.test = not (holds_g p)
allowed Ab.unlock_g Ba.asleep = false
allowed Ab.finished Ba.asleep = false
allowed p Ba.asleep = true
allowed p Ba.unlock_g = is_finished p
allowed p q = is_done p

-- The state is one of these.
abbrev pub Shaped : Canary → Type 0
Shaped s = (s ≡ state_of s.ab s.ba) × (allowed s.ab s.ba ≡ true)

module _ (os : Errno) where
  -- A step of such a state does not abort, and leads to one.
  abbrev pub Keeps : Outcome Canary → Type 0
  Keeps (Outcome.returns s) = Shaped s
  Keeps (Outcome.aborts m) = ⊥
  Keeps Outcome.blocks = Unit

  pub ab-Keeps : (p : Ab) (q : Ba) → allowed p q ≡ true → Keeps (step_ab os p (state_of p q))
  unfolding step_ab
  ab-Keeps Ab.lock_a Ba.lock_g h = (refl, refl)
  ab-Keeps p q h = ground arith

  pub ba-Keeps : (p : Ab) (q : Ba) → allowed p q ≡ true → Keeps (step_ba os q (state_of p q))
  unfolding step_ba
  ba-Keeps Ab.lock_a Ba.lock_g h = (refl, refl)
  ba-Keeps p q h = ground arith
