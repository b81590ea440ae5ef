-- ===== src/Sync/Peterson/Returns.antt =====
-- A thread that calls `lock()`, in a schedule in which both threads go on.
pub mod Arrival
pub mod Entered
use paracore.Base.{ℕ, List, [], ◌∷◌, ◌⊎◌}
use paracore.Sync.Peterson.{Caller, Pc}
use paracore.Sync.Peterson.System.{System, step}
use paracore.Sync.Peterson.Invariant.{Holds}

-- At some moment the thread holds the lock, while the threads make one access each in this order.
unfoldable pub Enters : (ids : ℕ → ℕ) (u : ℕ) → List ℕ → System → Type 0
Enters ids u [] s = Holds (s.pc u)
Enters ids u (t ∷ ts) s = Holds (s.pc u) ⊎ Enters ids u ts (step ids t s)

-- How many accesses, at most, a thread at this place makes before it waits, if it calls `lock()`.
abbrev pub way : Pc → ℕ
way Pc.outside = 7
way (Pc.claim_first Caller.lock) = 6
way (Pc.check_first Caller.lock) = 5
way (Pc.claim_second Caller.lock) = 4
way (Pc.check_second Caller.lock) = 3
way (Pc.raise_flag i) = 2
way (Pc.yield_to i) = 1
way _ = 0
