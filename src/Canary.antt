-- ===== src/Canary.antt =====
-- tests/canary_deadlock.cpp: two threads that lock A and B in opposite orders, the second behind a
-- gate of a Mutex G, a CondVar C and a flag. The mutexes are their contract, a lock with an owner.
pub mod Shape
pub mod Measure
pub mod Gate
pub mod Race
use paracore.Base.{ℕ, suc, ◌≡◌, Bool, true, false, Option, none, some}
use paracore.Core.Status.{Errno}
use paracore.Core.Outcome.{Outcome, ◌>>=◌}
use paracore.Core.Mutex.Checked.{lock_contract, unlock_contract}

-- Where `lock_ab` stands.
pub data Ab : Type 0 where
  lock_a lock_b unlock_b unlock_a lock_g set_done notify unlock_g finished : Ab

-- Where `lock_ba` stands; `asleep` in `C.wait`, and `woken` before the wait has G again.
pub data Ba : Type 0 where
  lock_g test asleep woken unlock_g lock_b lock_a unlock_a unlock_b finished : Ba

-- The owners of the mutexes, the flag, and the threads, which are 1 and 2.
pub record Canary : Type 0 where
  pub a : Option ℕ
  pub b : Option ℕ
  pub g : Option ℕ
  pub first_done : Bool
  pub ab : Ab
  pub ba : Ba

-- `C.notify_one()`
abbrev pub notified : Ba → Ba
notified Ba.asleep = Ba.woken
notified q = q

module _ (os : Errno) where
  -- The next step of the thread in `lock_ab`, which stands at the place.
  unfoldable pub step_ab : Ab → Canary → Outcome Canary
  step_ab Ab.lock_a s =
      lock_contract os 1 s.a >>= λ o. Outcome.returns (record s { a = o; ab = Ab.lock_b })
  step_ab Ab.lock_b s =
      lock_contract os 1 s.b >>= λ o. Outcome.returns (record s { b = o; ab = Ab.unlock_b })
  step_ab Ab.unlock_b s =
      unlock_contract os 1 s.b >>= λ o. Outcome.returns (record s { b = o; ab = Ab.unlock_a })
  step_ab Ab.unlock_a s =
      unlock_contract os 1 s.a >>= λ o. Outcome.returns (record s { a = o; ab = Ab.lock_g })
  step_ab Ab.lock_g s =
      lock_contract os 1 s.g >>= λ o. Outcome.returns (record s { g = o; ab = Ab.set_done })
  step_ab Ab.set_done s = Outcome.returns (record s { first_done = true; ab = Ab.notify })
  step_ab Ab.notify s = Outcome.returns (record s { ba = notified s.ba; ab = Ab.unlock_g })
  step_ab Ab.unlock_g s =
      unlock_contract os 1 s.g >>= λ o. Outcome.returns (record s { g = o; ab = Ab.finished })
  step_ab Ab.finished s = Outcome.blocks

  -- The same for `lock_ba`. `C.wait` gives G back as it falls asleep, and takes it when woken.
  unfoldable pub step_ba : Ba → Canary → Outcome Canary
  step_ba Ba.lock_g s =
      lock_contract os 2 s.g >>= λ o. Outcome.returns (record s { g = o; ba = Ba.test })
  step_ba Ba.test s = elim s.first_done [
    | true ↦ Outcome.returns (record s { ba = Ba.unlock_g })
    | false ↦ unlock_contract os 2 s.g >>= λ o. Outcome.returns (record s { g = o; ba = Ba.asleep })
  ]
  step_ba Ba.asleep s = Outcome.blocks
  step_ba Ba.woken s =
      lock_contract os 2 s.g >>= λ o. Outcome.returns (record s { g = o; ba = Ba.test })
  step_ba Ba.unlock_g s =
      unlock_contract os 2 s.g >>= λ o. Outcome.returns (record s { g = o; ba = Ba.lock_b })
  step_ba Ba.lock_b s =
      lock_contract os 2 s.b >>= λ o. Outcome.returns (record s { b = o; ba = Ba.lock_a })
  step_ba Ba.lock_a s =
      lock_contract os 2 s.a >>= λ o. Outcome.returns (record s { a = o; ba = Ba.unlock_a })
  step_ba Ba.unlock_a s =
      unlock_contract os 2 s.a >>= λ o. Outcome.returns (record s { a = o; ba = Ba.unlock_b })
  step_ba Ba.unlock_b s =
      unlock_contract os 2 s.b >>= λ o. Outcome.returns (record s { b = o; ba = Ba.finished })
  step_ba Ba.finished s = Outcome.blocks

  -- The states that the program reaches from one that it starts in, with how many steps its threads
  -- have made, and how often the sleeper woke unasked.
  pub data Reach (start : Canary) : (taken unasked : ℕ) → Canary → Type 0 where
    begins : Reach start 0 0 start
    steps_ab :
        {k w : ℕ} {s s' : Canary}
        → Reach start k w s
        → step_ab s.ab s ≡ Outcome.returns s'
        → Reach start (suc k) w s'
    steps_ba :
        {k w : ℕ} {s s' : Canary}
        → Reach start k w s
        → step_ba s.ba s ≡ Outcome.returns s'
        → Reach start (suc k) w s'
    spurious :
        {k w : ℕ} {s : Canary}
        → Reach start k w s
        → s.ba ≡ Ba.asleep
        → Reach start k (suc w) (record s { ba = Ba.woken })

-- `main` starts both threads.
abbrev pub init : Canary
init = record { a = none; b = none; g = none; first_done = false; ab = Ab.lock_a; ba = Ba.lock_g }
