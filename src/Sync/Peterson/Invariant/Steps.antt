-- ===== src/Sync/Peterson/Invariant/Steps.antt =====
-- The accesses of all threads, and the invariant.
use native.Mathlib.Decide.{ℕ_discrete}
use paracore.Base.{
  ℕ, ◌<◌, ◌≡◌, ◌≢◌, refl, sym, subst, inl, inr, Bool-cases, update, update_self, update_ne, arith,
}
use paracore.Core.Thread.{ThreadIds}
use paracore.Sync.Peterson.{Slot, index, victim, Members, Pc}
use paracore.Sync.Peterson.System.{System, turn, step, init, Reach, start, later}
use paracore.Sync.Peterson.Invariant.Defs.{Local, Holds, Waits, Inv}
use paracore.Sync.Peterson.Invariant.Moves.{Moved, turn-Moved, Frame-Local}
use paracore.Sync.Peterson.Invariant.Pairs.{holder-moves, waiter-moves, no_entry, others-excluded}

module _ {n : ℕ} {ids : ℕ → ℕ} {m : Members} {pc : ℕ → Pc} (known : ThreadIds n ids)
    (inv : Inv n ids m pc) (t : ℕ) (here : t < n) where
  open inv use {own, excluded, alone}

  abbrev m' : Members
  m' = (turn (ids t) (pc t) m).0

  abbrev p' : Pc
  p' = (turn (ids t) (pc t) m).1

  abbrev pc' : ℕ → Pc
  pc' = update pc t p'

  moved : Moved m m' (ids t) p'
  moved =
      turn-Moved (ids t) m (known.named t here) inv.in_order inv.apart inv.free inv.index_of (pc t)
        (own t here)

  differ : (u v : ℕ) → u < n → v < n → u ≢ v → ids u ≢ ids v
  differ u v hu hv ne e = ne (known.distinct u v hu hv e)

  -- A statement about thread `u` after the move, by whether it is the one that moved.
  by_mover {ℓ} :
      (P : ℕ → Pc → Type ℓ) → P t p' → ((u : ℕ) → t ≢ u → P u (pc u)) → (u : ℕ) → P u (pc' u)
  by_mover P mine others u = elim (ℕ_discrete t u) [
    | yes e ↦ subst (λ v. P v (pc' v)) e (rw (update_self pc t p') mine)
    | no ne ↦ rw (update_ne pc t u p' ne) (others u ne)
  ]

  own_kept : (u : ℕ) → u < n → Local m' (ids u) (pc' u)
  own_kept =
      by_mover (λ u p. u < n → Local m' (ids u) p) (λ _. moved.place)
        (λ u ne lt.
          Frame-Local (ids t) (ids u) m m' (pc u) (λ e. differ t u here lt ne (sym e))
            (known.named u lt) moved.low moved.high (own u lt))

  excluded_kept :
      (u v : ℕ) (i : Slot)
      → u < n
      → v < n
      → u ≢ v
      → Holds (pc' u)
      → Waits (pc' v) i
      → m' victim ≡ index i
  excluded_kept u v i =
      by_mover (λ u p. u < n → v < n → u ≢ v → Holds p → Waits (pc' v) i → m' victim ≡ index i)
        (λ hu hv ne holds. mover_holds v hv ne holds)
        (λ u other hu hv ne holds.
          by_mover (λ v p. v < n → u ≢ v → Waits p i → m' victim ≡ index i)
            (λ lt _ waits.
              waiter-moves (ids t) (ids u) m (differ t u here hu other) (pc t) (pc u) i
                (λ j w. excluded u t j hu here (λ e. other (sym e)) holds w) waits)
            (λ v further lt apart waits.
              others-excluded (ids t) (ids u) (ids v) m (pc t) (pc u) (pc v) i
                (differ t u here hu other) (differ t v here lt further) (differ u v hu lt apart)
                (own t here) (own u hu) (own v lt) holds waits
                (excluded u v i hu lt apart holds waits))
            v hv ne)
        u
    where
      mover_holds : (v : ℕ) → v < n → t ≢ v → Holds p' → Waits (pc' v) i → m' victim ≡ index i
      mover_holds v hv ne holds waits =
          holder-moves (ids t) (ids v) m (differ t v here hv ne) (pc t) (pc v) i inv.index_of
            (λ h. excluded t v i here hv ne h w) (own t here) (own v hv) w holds
        where
          w : Waits (pc v) i
          w = rw (update_ne pc t v p' ne) at waits

  entered : (u : ℕ) → u < n → t ≢ u → Holds (pc u) → Holds p' → ⊥
  entered u hu ne holds =
      no_entry (ids t) (ids u) m (differ t u here hu ne) (pc t) (pc u)
        (λ j w. excluded u t j hu here (λ e. ne (sym e)) holds w) (own t here) (own u hu) holds
        (λ h. ne (alone t u here hu h holds))

  alone_kept : (u v : ℕ) → u < n → v < n → Holds (pc' u) → Holds (pc' v) → u ≡ v
  alone_kept u v =
      by_mover (λ u p. u < n → v < n → Holds p → Holds (pc' v) → u ≡ v)
        (λ hu hv holds.
          by_mover (λ v p. v < n → Holds p → t ≡ v) (λ _ _. refl)
            (λ v ne lt h. absurd (entered v lt ne h holds)) v hv)
        (λ u ne hu hv holds.
          by_mover (λ v p. v < n → Holds p → u ≡ v) (λ _ h. absurd (entered u hu ne holds h))
            (λ v other lt h. alone u v hu lt holds h) v hv)
        u

  turn-Inv : Inv n ids m' pc'
  turn-Inv = record {
    in_order = moved.in_order;
    apart = moved.apart;
    free = moved.free;
    index_of = moved.index_of;
    own = own_kept;
    excluded = excluded_kept;
    alone = alone_kept;
  }

-- Every step of a thread keeps the invariant.
pub step-Inv :
    {n : ℕ} {ids : ℕ → ℕ} (s : System)
    → ThreadIds n ids
    → Inv n ids s.mem s.pc
    → (t : ℕ) → t < n
    → Inv n ids (step ids t s).mem (step ids t s).pc
unfolding step
step-Inv s known inv t here = elim (Bool-cases s.alive) [
  | inl up ↦ rw up (turn-Inv known inv t here)
  | inr down ↦ rw down inv
]

init-Inv : (n : ℕ) (ids : ℕ → ℕ) → Inv n ids init.mem init.pc
init-Inv n ids = record {
  in_order = λ h. h;
  apart = λ h. absurd (h refl);
  free = omega arith;
  index_of = omega arith;
  own = λ t h. omega arith;
  excluded = λ t u i ht hu ne holds w. absurd holds;
  alone = λ t u ht hu holds h. absurd holds;
}

pub Reach-Inv :
    {n : ℕ} {ids : ℕ → ℕ} {s : System} → ThreadIds n ids → Reach n ids s → Inv n ids s.mem s.pc
Reach-Inv {n} {ids} known start = init-Inv n ids
Reach-Inv known (later {s} t here r) = step-Inv s known (Reach-Inv known r) t here
