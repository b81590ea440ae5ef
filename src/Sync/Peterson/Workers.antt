-- ===== src/Sync/Peterson/Workers.antt =====
-- The two workers of the tests of two threads in tests/test_peterson.cpp: each takes a PetersonLock as
-- often as its loop says, and does with it what the body of the loop does.
pub mod Cost
pub mod Effect
pub mod Window
pub mod Through
pub mod Counter
pub mod Owed
pub mod Occupancy
use paracore.Base.{
  ℕ, ◌-◌, ◌≤◌, ◌<◌, ◌≡◌, ◌≢◌, Bool, true, false, ◌&&◌, ltb, ◌==◌, List, [], ◌∷◌, update,
  if◌then◌else◌,
}
use paracore.Sync.Peterson.{Pc}
use paracore.Sync.Peterson.System
use paracore.Sync.Peterson.System.{System}

-- The block of a loop that takes the lock, with what it works on.
pub record Body : Type 1 where
  pub State : Type 0
  pub lock : State → System
  pub start : State
  pub step : (ids : ℕ → ℕ) (t : ℕ) → State → State

abbrev pub is_outside : Pc → Bool
is_outside Pc.outside = true
is_outside _ = false

-- The thread is inside, with `rest` accesses to make there.
abbrev pub is_busy : Pc → (rest : ℕ) → Bool
is_busy Pc.inside rest = ltb 0 rest
is_busy p rest = false

-- What the threads need of the block: inside it makes as many accesses as are left, at most three, and
-- otherwise it runs the code of the lock.
pub record Brief (B : Body) : Type 0 where
  pub rest : B.State → ℕ → ℕ
  pub fresh : B.lock B.start ≡ System.init
  pub code :
      (ids : ℕ → ℕ) (t : ℕ) (s : B.State)
      → (B.lock s).alive ≡ true
      → is_busy ((B.lock s).pc t) (rest s t) ≡ false
      → (B.lock (B.step ids t s) ≡ System.step ids t (B.lock s)) × (rest (B.step ids t s) t ≤ 3)
  pub inner :
      (ids : ℕ → ℕ) (t : ℕ) (s : B.State)
      → (B.lock s).alive ≡ true
      → is_busy ((B.lock s).pc t) (rest s t) ≡ true
      → (B.lock (B.step ids t s) ≡ B.lock s) × (rest (B.step ids t s) t < rest s t)
  pub others : (ids : ℕ → ℕ) (t u : ℕ) (s : B.State) → t ≢ u → rest (B.step ids t s) u ≡ rest s u

module _ (B : Body) where
  -- The threads, and how many rounds of its loop each has still to begin.
  pub record Workers : Type 0 where
    pub state : B.State
    pub left : ℕ → ℕ

  -- The next access of thread `t`, if it is not through with its loop and the process not aborted.
  unfoldable pub step : (ids : ℕ → ℕ) (t : ℕ) → Workers → Workers
  step ids t s =
      let idle = is_outside ((B.lock s.state).pc t) in
      if (B.lock s.state).alive
      then if idle && (s.left t == 0) then s else record {
        state = B.step ids t s.state;
        left = if idle then update s.left t (s.left t - 1) else s.left;
      }
      else s

  abbrev pub init : (rounds : ℕ) → Workers
  init rounds = record { state = B.start; left = λ _. rounds }

  -- The threads make one access each, in this order.
  unfoldable pub run : (ids : ℕ → ℕ) → List ℕ → Workers → Workers
  run ids [] s = s
  run ids (t ∷ ts) s = run ids ts (step ids t s)

  -- The schedules of `rs`, one after the other.
  unfoldable pub run_all : (ids : ℕ → ℕ) → List (List ℕ) → Workers → Workers
  run_all ids [] s = s
  run_all ids (r ∷ rs) s = run_all ids rs (run ids r s)

  -- Thread `t` is through with its loop.
  abbrev pub Through : ℕ → Workers → Type 0
  Through t s = ((B.lock s.state).pc t ≡ Pc.outside) × (s.left t ≡ 0)
