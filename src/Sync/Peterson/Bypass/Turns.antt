-- ===== src/Sync/Peterson/Bypass/Turns.antt =====
-- One access, beside a thread that waits in slot `i`.
use paracore.Base.{ℕ, ◌≡◌, ◌≢◌, refl, true, false, arith}
use paracore.Sync.Peterson.{Slot, index, victim, owner, Members, Pc}
use paracore.Sync.Peterson.System.{turn}
use paracore.Sync.Peterson.Invariant.{Local, Holds, Waits}
use paracore.Sync.Peterson.Bypass.{holds}

pub holds-Holds : (p : Pc) → holds p ≡ true → Holds p
holds-Holds Pc.outside e = ground arith
holds-Holds p e = ground arith

pub not_holds : (p : Pc) → holds p ≡ false → ¬ Holds p
not_holds Pc.outside e = ground arith
not_holds p e = ground arith

pub holds-not-Waits : (p : Pc) (j : Slot) → holds p ≡ true → ¬ Waits p j
holds-not-Waits Pc.outside j e = ground arith
holds-not-Waits p j e = ground arith

pub enters-Waits :
    (me : ℕ) (p : Pc) (m : Members)
    → holds p ≡ false
    → holds (turn me p m).1 ≡ true
    → (j : Slot) × Waits p j
enters-Waits me Pc.outside m e f = absurd (ground arith)
enters-Waits me (Pc.claim_first c) m e f = absurd (ground arith)
enters-Waits me (Pc.check_first c) m e f = absurd (ground arith)
enters-Waits me (Pc.claim_second c) m e f = absurd (ground arith)
enters-Waits me (Pc.check_second c) m e f = absurd (ground arith)
enters-Waits me (Pc.see_flag i) m e f = (i, refl)
enters-Waits me (Pc.see_victim i) m e f = (i, refl)
enters-Waits me p m e f = absurd (ground arith)

-- A thread that does not own slot `i` begins to wait only as the victim itself, and makes the
-- owner of slot `i` the victim never.
pub victim_stays :
    (me : ℕ) (p : Pc) (m : Members) (i : Slot)
    → Local m me p
    → m (owner i) ≢ me
    → m victim ≢ index i
    → (turn me p m).0 victim ≢ index i
victim_stays me Pc.outside m i h other v = ground arith
victim_stays me p m Slot.first h other v = ground arith
victim_stays me p m Slot.second h other v = ground arith

pub begins_waiting :
    (me : ℕ) (p : Pc) (m : Members) (i j : Slot)
    → Local m me p
    → m (owner i) ≢ me
    → ((k : Slot) → Waits p k → m victim ≢ index i)
    → Waits (turn me p m).1 j
    → (turn me p m).0 victim ≢ index i
begins_waiting me Pc.outside m i j h other old waits = ground arith
begins_waiting me p m Slot.first j h other old waits = ground (arith, old j)
begins_waiting me p m Slot.second j h other old waits = ground (arith, old j)

pub Waits-turn : (me : ℕ) (p : Pc) (m : Members) (i : Slot) → Waits p i → (turn me p m).0 ≡ m
Waits-turn me Pc.outside m i w = ground arith
Waits-turn me p m i w = ground arith
