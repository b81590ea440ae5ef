-- ===== src/Sync/Peterson/Bypass.antt =====
-- How often other threads enter while one waits, in any schedule.
pub mod Turns
pub mod Behind
pub mod Once
use paracore.Base.{ℕ, ◌+◌, List, [], ◌∷◌, Bool, true, false, not, ◌&&◌, ◌==◌, if◌then◌else◌}
use paracore.Sync.Peterson.{Slot, Caller, Pc}
use paracore.Sync.Peterson.System.{System, step}
use paracore.Sync.Peterson.Invariant.{Waits}

-- `Holds` as a test.
abbrev pub holds : Pc → Bool
holds Pc.inside = true
holds (Pc.claim_first Caller.unlock) = true
holds (Pc.check_first Caller.unlock) = true
holds (Pc.claim_second Caller.unlock) = true
holds (Pc.check_second Caller.unlock) = true
holds (Pc.lower_flag _) = true
holds _ = false

-- 1 if the access that leads from `p` to `q` lets the thread in.
abbrev pub entry : Pc → Pc → ℕ
entry p q = if not (holds p) && holds q then 1 else 0

-- How often a thread other than `u` enters, while the threads make one access each in this order.
unfoldable pub bypasses : (ids : ℕ → ℕ) (u : ℕ) → List ℕ → System → ℕ
bypasses ids u [] s = 0
bypasses ids u (t ∷ ts) s =
    (if t == u then 0 else entry (s.pc t) ((step ids t s).pc t)) + bypasses ids u ts (step ids t s)

-- All the while, `u` waits in slot `i`.
unfoldable pub KeepsWaiting : (ids : ℕ → ℕ) (u : ℕ) (i : Slot) → List ℕ → System → Type 0
KeepsWaiting ids u i [] s = Waits (s.pc u) i
KeepsWaiting ids u i (t ∷ ts) s = Waits (s.pc u) i × KeepsWaiting ids u i ts (step ids t s)
