-- ===== src/Sync/Peterson/Invariant/Moves.antt =====
-- One access of a thread, and what it leaves true: for the thread itself, and for another.
use paracore.Base.{ℕ, ◌≤◌, ◌≡◌, ◌≢◌, ◌⊎◌, arith}
use paracore.Sync.Peterson.{Slot, first, second, flag, victim, owner, Members, Pc}
use paracore.Sync.Peterson.System.{turn}
use paracore.Sync.Peterson.Invariant.Defs.{Raised, Local, Holds, Waits}

-- What an access of thread `me` may do to the members of slot `i`.
pub record Frame (m m' : Members) (me : ℕ) (i : Slot) : Type 0 where
  pub kept : m (owner i) ≢ 0 → m' (owner i) ≡ m (owner i)
  pub taken : (m' (owner i) ≡ m (owner i)) ⊎ (m' (owner i) ≡ me)
  pub flag_kept : m (owner i) ≢ me → m' (flag i) ≡ m (flag i)

-- The mover's own part of the invariant.
pub record Moved (m m' : Members) (me : ℕ) (p' : Pc) : Type 0 where
  pub place : Local m' me p'
  pub low : Frame m m' me first
  pub high : Frame m m' me second
  pub in_order : m' (owner second) ≢ 0 → m' (owner first) ≢ 0
  pub apart : m' (owner second) ≢ 0 → m' (owner first) ≢ m' (owner second)
  pub free :
      (m' (owner first) ≡ 0 → m' (flag first) ≡ 0) × (m' (owner second) ≡ 0 → m' (flag second) ≡ 0)
  pub index_of : m' victim ≤ 1

module _ (me : ℕ) (m : Members) (named : me ≢ 0)
    (in_order : m (owner second) ≢ 0 → m (owner first) ≢ 0)
    (apart : m (owner second) ≢ 0 → m (owner first) ≢ m (owner second))
    (free : (m (owner first) ≡ 0 → m (flag first) ≡ 0)
      × (m (owner second) ≡ 0 → m (flag second) ≡ 0))
    (index_of : m victim ≤ 1) where
  pub turn-Moved : (p : Pc) → Local m me p → Moved m (turn me p m).0 me (turn me p m).1
  turn-Moved Pc.outside h = ground arith
  turn-Moved p h = ground arith

-- Another thread keeps what it knows.
pub Frame-Local :
    (me you : ℕ) (m m' : Members) (q : Pc)
    → you ≢ me
    → you ≢ 0
    → Frame m m' me first
    → Frame m m' me second
    → Local m you q
    → Local m' you q
Frame-Local me you m m' Pc.outside apart named low high h = ground arith
Frame-Local me you m m' q apart named low high h = ground arith

-- A thread that holds the lock has a slot with its flag up, and so has one that waits.
pub Holds-Raised :
    (m : Members) (me : ℕ) (p : Pc)
    → Local m me p
    → Holds p
    → Raised m me first ⊎ Raised m me second
Holds-Raised m me Pc.outside h holds = ground arith
Holds-Raised m me p h holds = ground arith

pub Waits-Raised :
    (m : Members) (me : ℕ) (p : Pc) (i : Slot) → Local m me p → Waits p i → Raised m me i
Waits-Raised m me Pc.outside i h waits = ground arith
Waits-Raised m me p i h waits = ground arith
