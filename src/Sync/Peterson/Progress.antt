-- ===== src/Sync/Peterson/Progress.antt =====
-- The threads of a PetersonLock that wait, and the ones that they wait for.
use paracore.Base.{ℕ, ◌<◌, ◌≡◌, ◌≢◌, inl, inr, refl, sym, ap, Bool-cases, ◌∙◌, arith}
use paracore.Core.Thread.{ThreadIds}
use paracore.Sync.Peterson.{Slot, first, second, other, index, flag, victim, owner, Members, Pc}
use paracore.Sync.Peterson.System.{System, turn, step, Reach, start, later}
use paracore.Sync.Peterson.Invariant.{
  Local, Raised, Holds, Waits, Inv, Reach-Inv, Waits-Raised, Frame,
}
use paracore.Sync.Peterson.Safety.{turn-Frame}

-- A slot that is taken belongs to one of the threads.
abbrev pub Owned : ℕ → (ℕ → ℕ) → Members → Type 0
Owned n ids m = (i : Slot) → m (owner i) ≢ 0 → (u : ℕ) × (u < n) × (ids u ≡ m (owner i))

turn-Owned :
    {n : ℕ} {ids : ℕ → ℕ} {m : Members} {pc : ℕ → Pc}
    → ThreadIds n ids
    → Inv n ids m pc
    → (t : ℕ) → t < n
    → Owned n ids m
    → Owned n ids (turn (ids t) (pc t) m).0
turn-Owned {ids} {m} {pc} known inv t here owned i taken = elim frame.taken [
  | inl same ↦ let (u, lt, e) = owned i (λ z. taken (same ∙ z)) in (u, lt, e ∙ sym same)
  | inr mine ↦ (t, here, sym mine)
]
  where
    frame : Frame m (turn (ids t) (pc t) m).0 (ids t) i
    frame = turn-Frame known inv t here i

pub Reach-Owned :
    {n : ℕ} {ids : ℕ → ℕ} {s : System} → ThreadIds n ids → Reach n ids s → Owned n ids s.mem
unfolding step
Reach-Owned known start = λ i taken. absurd (taken refl)
Reach-Owned known (later {s} t here r) = elim (Bool-cases s.alive) [
  | inl up ↦ rw up (turn-Owned known (Reach-Inv known r) t here (Reach-Owned known r))
  | inr down ↦ rw down (Reach-Owned known r)
]

-- A thread that can go on: it is on its way in or out, or it waits and is not the victim.
abbrev pub Unblocked : Members → Pc → Type 0
Unblocked m (Pc.yield_to i) = Unit
Unblocked m (Pc.see_flag i) = m victim ≢ index i
Unblocked m (Pc.see_victim i) = m victim ≢ index i
Unblocked m p = Holds p

owner_busy :
    (m : Members) (you : ℕ) (q : Pc) (i : Slot)
    → m (owner second) ≢ 0
    → m (owner first) ≢ m (owner second)
    → you ≡ m (owner (other i))
    → Local m you q
    → m (flag (other i)) ≢ 0
    → m victim ≡ index i
    → Unblocked m q
owner_busy m you Pc.outside Slot.first two apart mine k up v = ground arith
owner_busy m you q Slot.first two apart mine k up v = ground arith
owner_busy m you q Slot.second two apart mine k up v = ground arith

-- A waiting thread whose rival has its flag up shares the lock with an owner of the other slot.
rival_taken :
    {n : ℕ} {ids : ℕ → ℕ} {m : Members} {pc : ℕ → Pc}
    → Inv n ids m pc
    → (me : ℕ) → me ≢ 0
    → (i : Slot) → Raised m me i
    → m (flag (other i)) ≢ 0
    → (m (owner (other i)) ≢ 0)
      × (m (owner (other i)) ≢ me)
      × (m (owner second) ≢ 0)
      × (m (owner first) ≢ m (owner second))
rival_taken {m} inv me named Slot.first mine up = ground (arith, inv.free.1, inv.apart)
rival_taken {m} inv me named Slot.second mine up = ground (arith, inv.free.0, inv.apart)

-- No deadlock: in a reachable state in which a waiting thread would find the other flag up and
-- itself the victim, some other thread holds the lock, or is about to wait, or waits and is not the
-- victim. The ids are not 0 and differ.
pub no_deadlock :
    {n : ℕ} {ids : ℕ → ℕ} {s : System}
    → ThreadIds n ids
    → Reach n ids s
    → (t : ℕ) → t < n
    → (i : Slot) → Waits (s.pc t) i
    → s.mem (flag (other i)) ≢ 0
    → s.mem victim ≡ index i
    → (u : ℕ) × (u < n) × (u ≢ t) × Unblocked s.mem (s.pc u)
no_deadlock {n} {ids} {s} known r t here i waits up v =
    let (taken, not_mine, two, apart) =
      rival_taken inv (ids t) (known.named t here) i
        (Waits-Raised s.mem (ids t) (s.pc t) i (inv.own t here) waits) up in
    let (u, lt, e) = Reach-Owned known r (other i) taken in
    (
      u,
      lt,
      (λ z. not_mine (sym e ∙ ap ids z)),
      owner_busy s.mem (ids u) (s.pc u) i two apart e (inv.own u lt) up v,
    )
  where
    inv : Inv n ids s.mem s.pc
    inv = Reach-Inv known r
