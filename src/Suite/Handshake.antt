-- ===== src/Suite/Handshake.antt =====
-- `cond_wait_with_predicate` and `cond_wait_with_handwritten_while` of tests/test_core.cpp: a test
-- that waits under a Mutex, on a CondVar, for the flag that the thread `setter` sets. The Mutex is
-- its contract, a lock with an owner.
pub mod Shape
pub mod Awaited
use paracore.Base.{ℕ, suc, ◌≡◌, Bool, true, false, Option, none, if◌then◌else◌}
use paracore.Core.Status.{Errno}
use paracore.Core.Outcome.{Outcome, ◌>>=◌}
use paracore.Core.Mutex.Checked.{lock_contract, unlock_contract}

-- Where the setter stands.
pub data Setter : Type 0 where
  lock set_ready notify unlock finished : Setter

-- Where the test stands; `asleep` in the wait, and `woken` before the wait has the lock again.
-- `failed` is after an assertion that did not hold.
pub data Waiter : Type 0 where
  lock test asleep woken assert_ready unlock join finished failed : Waiter

-- The owner of the mutex, the flag, and the threads: the test is 1 and the setter 2.
pub record Handshake : Type 0 where
  pub m : Option ℕ
  pub ready : Bool
  pub setter : Setter
  pub waiter : Waiter

-- `cv.notify_one()`
abbrev pub notified : Waiter → Waiter
notified Waiter.asleep = Waiter.woken
notified w = w

module _ (os : Errno) where
  -- The next step of the setter, which stands at the place.
  unfoldable pub step_setter : Setter → Handshake → Outcome Handshake
  step_setter Setter.lock s = lock_contract os 2 s.m >>= λ o.
      Outcome.returns (record s { m = o; setter = Setter.set_ready })
  step_setter Setter.set_ready s =
      Outcome.returns (record s { ready = true; setter = Setter.notify })
  step_setter Setter.notify s =
      Outcome.returns (record s { waiter = notified s.waiter; setter = Setter.unlock })
  step_setter Setter.unlock s = unlock_contract os 2 s.m >>= λ o.
      Outcome.returns (record s { m = o; setter = Setter.finished })
  step_setter Setter.finished s = Outcome.blocks

  -- `setter` has ended, so that its destructor returns.
  abbrev joined : Setter → Handshake → Outcome Handshake
  joined Setter.finished s = Outcome.returns (record s { waiter = Waiter.finished })
  joined p s = Outcome.blocks

  -- The same for the test. The wait gives the lock back as it falls asleep, and takes it when woken.
  unfoldable pub step_waiter : Waiter → Handshake → Outcome Handshake
  step_waiter Waiter.lock s =
      lock_contract os 1 s.m >>= λ o. Outcome.returns (record s { m = o; waiter = Waiter.test })
  step_waiter Waiter.test s = elim s.ready [
    | true ↦ Outcome.returns (record s { waiter = Waiter.assert_ready })
    | false ↦ unlock_contract os 1 s.m >>= λ o.
        Outcome.returns (record s { m = o; waiter = Waiter.asleep })
  ]
  step_waiter Waiter.asleep s = Outcome.blocks
  step_waiter Waiter.woken s =
      lock_contract os 1 s.m >>= λ o. Outcome.returns (record s { m = o; waiter = Waiter.test })
  step_waiter Waiter.assert_ready s =
      Outcome.returns (record s { waiter = if s.ready then Waiter.unlock else Waiter.failed })
  step_waiter Waiter.unlock s =
      unlock_contract os 1 s.m >>= λ o. Outcome.returns (record s { m = o; waiter = Waiter.join })
  step_waiter Waiter.join s = joined s.setter s
  step_waiter Waiter.finished s = Outcome.blocks
  step_waiter Waiter.failed s = Outcome.blocks

  -- The states that the test reaches from one that it starts in, with how many steps its threads
  -- have made, and how often the sleeper woke unasked.
  pub data Reach (start : Handshake) : (taken unasked : ℕ) → Handshake → Type 0 where
    begins : Reach start 0 0 start
    steps_setter :
        {k w : ℕ} {s s' : Handshake}
        → Reach start k w s
        → step_setter s.setter s ≡ Outcome.returns s'
        → Reach start (suc k) w s'
    steps_waiter :
        {k w : ℕ} {s s' : Handshake}
        → Reach start k w s
        → step_waiter s.waiter s ≡ Outcome.returns s'
        → Reach start (suc k) w s'
    spurious :
        {k w : ℕ} {s : Handshake}
        → Reach start k w s
        → s.waiter ≡ Waiter.asleep
        → Reach start k (suc w) (record s { waiter = Waiter.woken })

-- The test has started the setter.
abbrev pub init : Handshake
init = record { m = none; ready = false; setter = Setter.lock; waiter = Waiter.lock }
