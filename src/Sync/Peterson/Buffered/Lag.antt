-- ===== src/Sync/Peterson/Buffered/Lag.antt =====
-- PetersonLock with `release` stores of its flags and `seq_cst` stores of `victim_`, on the machine with
-- store buffers: a thread whose flag is still to come is behind where it stands.
use paracore.Base.{ℕ, ◌≡◌, refl, [], ◌∷◌, true}
use paracore.Sync.Memory.{Order}
use paracore.Sync.Memory.Buffer.{Pending, flush}
use paracore.Sync.Peterson.{Slot, flag, Members, lock_cells, Caller, Pc, Orders}
use paracore.Sync.Peterson.System.{turn, is_alive}
use paracore.Sync.Peterson.Invariant.{Holds}
use paracore.Sync.Peterson.Buffered.{turn_buffered}

-- Only `victim_` is `seq_cst`.
abbrev pub strong_victim : Orders
strong_victim = record { of_flag = Order.release; of_victim = Order.seq_cst }

-- Where a thread stands as the others see it, by its pending stores and where it stands.
pub data Lag : Pending lock_cells → Pc → Pc → Type 0 where
  level : (p : Pc) → Lag [] p p
  raising : (i : Slot) → Lag ((flag i, 1) ∷ []) (Pc.yield_to i) (Pc.raise_flag i)
  lowering : (i : Slot) → Lag ((flag i, 0) ∷ []) Pc.outside (Pc.lower_flag i)
  returning : (i : Slot) → Lag ((flag i, 0) ∷ []) (Pc.claim_first Caller.lock) (Pc.lower_flag i)

pub Lag-Holds : {b : Pending lock_cells} {p q : Pc} → Lag b p q → Holds p → Holds q
Lag-Holds (level p) h = h
Lag-Holds (raising i) h = absurd h
Lag-Holds (lowering i) h = absurd h
Lag-Holds (returning i) h = absurd h

pub Lag-alive :
    {b : Pending lock_cells} {p q : Pc} → Lag b p q → is_alive p ≡ true → is_alive q ≡ true
Lag-alive (level p) h = h
Lag-alive (raising i) h = refl
Lag-alive (lowering i) h = refl
Lag-alive (returning i) h = refl

-- Accesses of one thread on the interleaved memory, none of which but the last aborts.
pub data Accesses (me : ℕ) : Members → Pc → Members → Pc → Type 0 where
  stays : {m : Members} {q : Pc} → Accesses me m q m q
  moves :
      {m m' : Members} {q q' : Pc}
      → is_alive (turn me q m).1 ≡ true
      → Accesses me (turn me q m).0 (turn me q m).1 m' q'
      → Accesses me m q m' q'
  ends : {m : Members} {q : Pc} → Accesses me m q (turn me q m).0 (turn me q m).1

-- What an access or a flush of the thread comes to for the others.
pub record Followed (me : ℕ) (m : Members) (q : Pc) (b : Pending lock_cells) (m' : Members) (p : Pc)
    : Type 0 where
  pub seen : Pc
  pub path : Accesses me m q m' seen
  pub lag : Lag b p seen

pub turn-Followed :
    (me : ℕ) (m : Members) {b : Pending lock_cells} {p q : Pc}
    → Lag b p q
    → let (b', m', p') = turn_buffered strong_victim me p b m in Followed me m q b' m' p'
unfolding turn_buffered
turn-Followed me m (level Pc.outside) = record { seen = _; path = ends; lag = level _ }
turn-Followed me m (level (Pc.raise_flag i)) = record { seen = _; path = stays; lag = raising i }
turn-Followed me m (level (Pc.lower_flag i)) = record { seen = _; path = stays; lag = lowering i }
turn-Followed me m (level p) = record { seen = _; path = ends; lag = level _ }
turn-Followed me m (raising i) = record { seen = _; path = moves refl ends; lag = level _ }
turn-Followed me m (lowering i) = record { seen = _; path = stays; lag = returning i }
turn-Followed me m (returning i) = record {
  seen = _;
  path = moves refl (moves refl ends);
  lag = level _;
}

pub flush-Followed :
    (me : ℕ) (m : Members) {b : Pending lock_cells} {p q : Pc}
    → Lag b p q
    → let (b', m') = flush lock_cells b m in Followed me m q b' m' p
flush-Followed me m (level p) = record { seen = _; path = stays; lag = level p }
flush-Followed me m (raising i) = record { seen = _; path = ends; lag = level _ }
flush-Followed me m (lowering i) = record { seen = _; path = ends; lag = level _ }
flush-Followed me m (returning i) = record { seen = _; path = moves refl ends; lag = level _ }
