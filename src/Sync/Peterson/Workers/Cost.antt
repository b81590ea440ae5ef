-- ===== src/Sync/Peterson/Workers/Cost.antt =====
-- How far a worker is in a round of its loop.
use paracore.Base.{ℕ, ◌+◌, ◌≤◌, ◌<◌, ◌≡◌, ◌⊎◌, true, false, ◌==◌, if◌then◌else◌, arith}
use paracore.Sync.Peterson.{other, index, flag, victim, Caller, Members, Pc}
use paracore.Sync.Peterson.System.{turn, is_alive}
use paracore.Sync.Peterson.Workers.{is_outside, is_busy}

-- How many accesses it makes at most until the round is over, if it does not wait.
abbrev pub cost : Pc → (rest : ℕ) → ℕ
cost Pc.outside r = 0
cost (Pc.claim_first Caller.lock) r = 16
cost (Pc.check_first Caller.lock) r = 15
cost (Pc.claim_second Caller.lock) r = 14
cost (Pc.check_second Caller.lock) r = 13
cost (Pc.raise_flag i) r = 12
cost (Pc.yield_to i) r = 11
cost (Pc.see_flag i) r = 10
cost (Pc.see_victim i) r = 10
cost Pc.inside r = 6 + r
cost (Pc.claim_first Caller.unlock) r = 5
cost (Pc.check_first Caller.unlock) r = 4
cost (Pc.claim_second Caller.unlock) r = 3
cost (Pc.check_second Caller.unlock) r = 2
cost (Pc.lower_flag i) r = 1
cost Pc.aborted r = 0

-- How many accesses of its own it takes at most to come on, and 0 if it waits for the other.
abbrev pub need : Pc → Members → ℕ
need (Pc.see_flag i) m = if m (flag (other i)) == 0 then 1 else if m victim == index i then 0 else 2
need (Pc.see_victim i) m =
    if m victim == index i then if m (flag (other i)) == 0 then 2 else 0 else 1
need p m = 1

module _ (me : ℕ) (m : Members) (r r' : ℕ) (small : r' ≤ 3) where
  -- A step of the lock's code in a round brings its end nearer, or is a look while it waits.
  pub cost-turn :
      (p : Pc)
      → is_busy p r ≡ false
      → is_outside p ≡ false
      → is_alive (turn me p m).1 ≡ true
      → (cost (turn me p m).1 r' < cost p r)
        ⊎ ((cost (turn me p m).1 r' ≡ cost p r) × ((turn me p m).0 ≡ m))
  cost-turn Pc.outside b o a = ground arith
  cost-turn p b o a = ground arith

  -- A look takes a thread that can come on nearer to where it does.
  pub need-turn :
      (p : Pc)
      → is_busy p r ≡ false
      → is_outside p ≡ false
      → is_alive (turn me p m).1 ≡ true
      → 0 < need p m
      → (cost (turn me p m).1 r' < cost p r)
        ⊎ ((0 < need (turn me p m).1 m) × (need (turn me p m).1 m < need p m))
  need-turn Pc.outside b o a h = ground arith
  need-turn p b o a h = ground arith

pub cost-busy : (p : Pc) (r r' : ℕ) → is_busy p r ≡ true → r' < r → cost p r' < cost p r
cost-busy Pc.outside r r' b h = cc
cost-busy p r r' b h = ground arith

pub is_outside-not_busy : (p : Pc) (r : ℕ) → is_outside p ≡ true → is_busy p r ≡ false
is_outside-not_busy Pc.outside r e = cc
is_outside-not_busy p r e = ground arith
