-- ===== src/Sync/Peterson/Invariant/Pairs.antt =====
-- Two threads, one of which moves.
use paracore.Base.{ℕ, ◌≤◌, ◌≡◌, ◌≢◌, arith}
use paracore.Sync.Peterson.{Slot, index, victim, first, second, Members, Pc}
use paracore.Sync.Peterson.System.{turn}
use paracore.Sync.Peterson.Invariant.Defs.{Local, Holds, Waits}
use paracore.Sync.Peterson.Invariant.Moves.{Holds-Raised, Waits-Raised}

module _ (me you : ℕ) (m : Members) (differ : me ≢ you) where
  -- The mover enters, or stays inside: the other thread, if it waits, is the victim.
  pub holder-moves :
      (p q : Pc) (i : Slot)
      → m victim ≤ 1
      → (Holds p → m victim ≡ index i)
      → Local m me p
      → Local m you q
      → Waits q i
      → Holds (turn me p m).1
      → (turn me p m).0 victim ≡ index i
  holder-moves Pc.outside q i range old h k waits holds = ground arith
  holder-moves p q Slot.first range old h k waits holds =
      ground (arith, Waits-Raised m you q first k waits)
  holder-moves p q Slot.second range old h k waits holds =
      ground (arith, Waits-Raised m you q second k waits)

  -- The mover begins to wait, or goes on: it is the victim while the other holds the lock.
  pub waiter-moves :
      (p q : Pc) (i : Slot)
      → ((j : Slot) → Waits p j → m victim ≡ index j)
      → Waits (turn me p m).1 i
      → (turn me p m).0 victim ≡ index i
  waiter-moves Pc.outside q i old waits = ground arith
  waiter-moves p q i old waits = ground (arith, old i)

  -- Nobody enters while the other holds the lock.
  pub no_entry :
      (p q : Pc)
      → ((j : Slot) → Waits p j → m victim ≡ index j)
      → Local m me p
      → Local m you q
      → Holds q
      → (Holds p → ⊥)
      → Holds (turn me p m).1
      → ⊥
  no_entry Pc.outside q old h k holds not_yet enters = ground arith
  no_entry p q old h k holds not_yet enters =
      ground (arith, Holds-Raised m you q k holds, old first, old second)

-- Two others do not see the move in `victim_`, unless there are three slots.
pub others-excluded :
    (me you third : ℕ) (m : Members) (p q r : Pc) (i : Slot)
    → me ≢ you
    → me ≢ third
    → you ≢ third
    → Local m me p
    → Local m you q
    → Local m third r
    → Holds q
    → Waits r i
    → m victim ≡ index i
    → (turn me p m).0 victim ≡ index i
others-excluded me you third m Pc.outside q r i ab ac bc h k l holds waits old = ground arith
others-excluded me you third m p q r Slot.first ab ac bc h k l holds waits old =
    ground (arith, Holds-Raised m you q k holds, Waits-Raised m third r first l waits)
others-excluded me you third m p q r Slot.second ab ac bc h k l holds waits old =
    ground (arith, Holds-Raised m you q k holds, Waits-Raised m third r second l waits)
