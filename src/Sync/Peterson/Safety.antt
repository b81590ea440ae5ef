-- ===== src/Sync/Peterson/Safety.antt =====
-- The states that the threads of a PetersonLock reach by interleaving.
use paracore.Base.{
  ℕ, ◌≤◌, ◌<◌, ◌≡◌, ◌≢◌, inl, inr, refl, sym, subst, Bool-cases, update_self, update_ne, arith,
}
use paracore.Core.Thread.{ThreadIds}
use paracore.Sync.Peterson.{Slot, first, second, index, victim, owner, Members, Pc}
use paracore.Sync.Peterson.System.{System, turn, step, Reach}
use paracore.Sync.Peterson.Invariant.{
  Local, Holds, Waits, Inv, Reach-Inv, Frame, turn-Moved, Waits-Raised,
}

-- Of the threads that share a PetersonLock and whose ids are not 0 and differ from one another, at
-- most one holds the lock, in every state that any interleaving of their atomic accesses on one
-- memory reaches, also while it is on its way through `unlock()`.
pub mutual_exclusion :
    {n : ℕ} {ids : ℕ → ℕ} {s : System}
    → ThreadIds n ids
    → Reach n ids s
    → (t u : ℕ) → t < n
    → u < n
    → Holds (s.pc t)
    → Holds (s.pc u)
    → t ≡ u
mutual_exclusion known r t u = (Reach-Inv known r).alone t u

-- Two threads are not both inside.
pub inside_alone :
    {n : ℕ} {ids : ℕ → ℕ} {s : System}
    → ThreadIds n ids
    → Reach n ids s
    → (t u : ℕ) → t < n
    → u < n
    → s.pc t ≡ Pc.inside
    → s.pc u ≡ Pc.inside
    → t ≡ u
inside_alone known r t u ht hu e f =
    mutual_exclusion known r t u ht hu (subst Holds (sym e) tt) (subst Holds (sym f) tt)

-- In a reachable state a thread that has called `abort` is one too many: both slots are taken, by
-- two different ids, and neither is its own. The ids are not 0 and differ.
pub abort_needs_third :
    {n : ℕ} {ids : ℕ → ℕ} {s : System}
    → ThreadIds n ids
    → Reach n ids s
    → (t : ℕ) → t < n
    → s.pc t ≡ Pc.aborted
    → (s.mem (owner first) ≢ 0)
      × (s.mem (owner second) ≢ 0)
      × (s.mem (owner first) ≢ s.mem (owner second))
      × (s.mem (owner first) ≢ ids t)
      × (s.mem (owner second) ≢ ids t)
abort_needs_third {n} {ids} {s} known r t here e =
    (at_abort.0, at_abort.2, inv.apart at_abort.2, at_abort.1, at_abort.3)
  where
    inv : Inv n ids s.mem s.pc
    inv = Reach-Inv known r

    at_abort : Local s.mem (ids t) Pc.aborted
    at_abort = rw e at (inv.own t here)

-- What one access of thread `t` does to slot `i`.
pub turn-Frame :
    {n : ℕ} {ids : ℕ → ℕ} {m : Members} {pc : ℕ → Pc}
    → ThreadIds n ids
    → Inv n ids m pc
    → (t : ℕ) → t < n
    → (i : Slot) → Frame m (turn (ids t) (pc t) m).0 (ids t) i
turn-Frame {ids} {m} {pc} known inv t here Slot.first =
    (turn-Moved (ids t) m (known.named t here) inv.in_order inv.apart inv.free inv.index_of (pc t)
      (inv.own t here)).low
turn-Frame {ids} {m} {pc} known inv t here Slot.second =
    (turn-Moved (ids t) m (known.named t here) inv.in_order inv.apart inv.free inv.index_of (pc t)
      (inv.own t here)).high

-- In a reachable state a slot that is taken keeps its owner through a step of any thread. The ids
-- are not 0 and differ.
pub owner_kept :
    {n : ℕ} {ids : ℕ → ℕ} (s : System)
    → ThreadIds n ids
    → Reach n ids s
    → (t : ℕ) → t < n
    → (i : Slot) → s.mem (owner i) ≢ 0
    → (step ids t s).mem (owner i) ≡ s.mem (owner i)
unfolding step
owner_kept s known r t here i taken = elim (Bool-cases s.alive) [
  | inl up ↦ rw up ((turn-Frame known (Reach-Inv known r) t here i).kept taken)
  | inr down ↦ rw down
]

module _ (me you : ℕ) (m : Members) (differ : me ≢ you) (range : m victim ≤ 1) where
  -- While `you` waits in slot `i` and is not the victim, `me` does not enter, nor make it one.
  next_in_line :
      (p q : Pc) (i : Slot)
      → Local m me p
      → Local m you q
      → Waits q i
      → m victim ≢ index i
      → (Holds (turn me p m).1 → Holds p) × ((turn me p m).0 victim ≢ index i)
  next_in_line Pc.outside q i h k waits turn_of = ground arith
  next_in_line p q Slot.first h k waits turn_of = ground (arith, Waits-Raised m you q first k waits)
  next_in_line p q Slot.second h k waits turn_of =
      ground (arith, Waits-Raised m you q second k waits)

-- No overtaking: in a reachable state in which thread `u` waits and is not the victim, a step of
-- another thread `t` that does not hold the lock does not let `t` enter, and leaves `u` where it is
-- and still not the victim. The ids are not 0 and differ.
pub no_overtaking :
    {n : ℕ} {ids : ℕ → ℕ} (s : System)
    → ThreadIds n ids
    → Reach n ids s
    → (t u : ℕ) → t < n
    → u < n
    → t ≢ u
    → (i : Slot) → Waits (s.pc u) i
    → s.mem victim ≢ index i
    → ¬ Holds (s.pc t)
    → (¬ Holds ((step ids t s).pc t))
      × ((step ids t s).pc u ≡ s.pc u)
      × ((step ids t s).mem victim ≢ index i)
unfolding step
no_overtaking {n} {ids} s known r t u ht hu ne i waits turn_of out = elim (Bool-cases s.alive) [
  | inl up ↦
      rw (up, update_self s.pc t (turn (ids t) (s.pc t) s.mem).1)
        ((λ h. out (line.0 h)), update_ne s.pc t u _ ne, line.1)
  | inr down ↦ rw down (out, refl, turn_of)
]
  where
    inv : Inv n ids s.mem s.pc
    inv = Reach-Inv known r

    line :
        (Holds (turn (ids t) (s.pc t) s.mem).1 → Holds (s.pc t))
        × ((turn (ids t) (s.pc t) s.mem).0 victim ≢ index i)
    line =
        next_in_line (ids t) (ids u) s.mem (λ e. ne (known.distinct t u ht hu e)) inv.index_of
          (s.pc t) (s.pc u) i (inv.own t ht) (inv.own u hu) waits turn_of
