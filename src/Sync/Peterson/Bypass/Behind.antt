-- ===== src/Sync/Peterson/Bypass/Behind.antt =====
-- The threads that may no longer overtake the one that waits.
use paracore.Base.{
  ℕ, ◌<◌, ◌≡◌, ◌≢◌, inl, inr, sym, ap, subst, ◌∙◌, true, false, ◌==◌, Bool-cases, ==→eq, ==→ne,
  arith,
}
use paracore.Core.Thread.{ThreadIds}
use paracore.Sync.Peterson.{Slot, index, victim, owner, Members}
use paracore.Sync.Peterson.System.{System, turn, step, Reach}
use paracore.Sync.Peterson.Invariant.{Waits, Inv, Reach-Inv, Holds-Raised, Waits-Raised}
use paracore.Sync.Peterson.Waiting.{step-place, own_step}
use paracore.Sync.Peterson.Bypass.{holds}
use paracore.Sync.Peterson.Bypass.Turns.{
  holds-Holds, holds-not-Waits, victim_stays, begins_waiting, Waits-turn,
}

-- No thread but `u` waits unless `u`, in slot `i`, has ceased to be the victim.
abbrev pub Behind : (n u : ℕ) (i : Slot) → System → Type 0
Behind n u i s = (t : ℕ) → t < n → t ≢ u → (j : Slot) → Waits (s.pc t) j → s.mem victim ≢ index i

pub step-dead : (ids : ℕ → ℕ) (t : ℕ) (s : System) → s.alive ≡ false → step ids t s ≡ s
unfolding step
step-dead ids t s down = ground arith

pub not_owner :
    {n : ℕ} {ids : ℕ → ℕ} (s : System)
    → ThreadIds n ids
    → Reach n ids s
    → (u t : ℕ) → u < n
    → t < n
    → t ≢ u
    → (i : Slot) → Waits (s.pc u) i
    → s.mem (owner i) ≢ ids t
not_owner {ids} s known r u t hu ht ne i w e = ne (
    known.distinct t u ht hu
      (sym e ∙ (Waits-Raised s.mem (ids u) (s.pc u) i ((Reach-Inv known r).own u hu) w).0))

pub step-Behind :
    {n : ℕ} {ids : ℕ → ℕ} (s : System)
    → ThreadIds n ids
    → Reach n ids s
    → (u t : ℕ) → u < n
    → t < n
    → (i : Slot) → Waits (s.pc u) i
    → Behind n u i s
    → Behind n u i (step ids t s)
step-Behind {n} {ids} s known r u t hu ht i w behind = elim (Bool-cases s.alive) [
  | inl up ↦ alive_step up
  | inr down ↦ subst (Behind n u i) (sym (step-dead ids t s down)) behind
]
  where
    inv : Inv n ids s.mem s.pc
    inv = Reach-Inv known r

    alive_step : s.alive ≡ true → Behind n u i (step ids t s)
    alive_step up t' ht' ne' j w' = elim (Bool-cases (t == u)) [
      | inl own ↦ own_turn (==→eq t u own)
      | inr apart ↦ other_turn (==→ne t u apart)
    ]
      where
        moved :
            ((step ids t s).pc t ≡ (turn (ids t) (s.pc t) s.mem).1)
            × ((step ids t s).mem ≡ (turn (ids t) (s.pc t) s.mem).0)
        moved = own_step ids t s up

        at_victim : (step ids t s).mem victim ≡ (turn (ids t) (s.pc t) s.mem).0 victim
        at_victim = ap (λ (m : Members). m victim) moved.1

        stays : t' ≢ t → Waits (s.pc t') j
        stays ne = subst (λ p. Waits p j) (step-place ids t' s t (λ e. ne (sym e))) w'

        own_turn : t ≡ u → (step ids t s).mem victim ≢ index i
        own_turn e v = behind t' ht' ne' j (stays (λ z. ne' (z ∙ e))) (
            ap (λ (m : Members). m victim)
              (sym (Waits-turn (ids t) (s.pc t) s.mem i (subst (λ k. Waits (s.pc k) i) (sym e) w)))
            ∙ (sym at_victim ∙ v))

        other_turn : t ≢ u → (step ids t s).mem victim ≢ index i
        other_turn ne v = elim (Bool-cases (t' == t)) [
          | inl same ↦
              begins_waiting (ids t) (s.pc t) s.mem i j (inv.own t ht)
                (not_owner s known r u t hu ht ne i w) (behind t ht ne)
                (subst (λ p. Waits p j) ((ap (step ids t s).pc (==→eq t' t same)) ∙ moved.0) w')
                (sym at_victim ∙ v)
          | inr apart ↦
              victim_stays (ids t) (s.pc t) s.mem i (inv.own t ht)
                (not_owner s known r u t hu ht ne i w)
                (behind t' ht' ne' j (stays (==→ne t' t apart))) (sym at_victim ∙ v)
        ]

-- Once a thread has entered, the others are behind.
pub enters-Behind :
    {n : ℕ} {ids : ℕ → ℕ} (s : System)
    → ThreadIds n ids
    → Reach n ids s
    → (u t : ℕ) → u < n
    → t < n
    → t ≢ u
    → (i : Slot) → Waits (s.pc u) i
    → holds (s.pc t) ≡ true
    → Behind n u i s
enters-Behind {n} {ids} s known r u t hu ht ne i w inside t' ht' ne' j w' =
    elim (Bool-cases (t' == t)) [
      | inl same ↦
          absurd
            (holds-not-Waits (s.pc t) j inside (subst (λ k. Waits (s.pc k) j) (==→eq t' t same) w'))
      | inr apart ↦ ground (
        arith,
        Waits-Raised s.mem (ids u) (s.pc u) i (inv.own u hu) w,
        Waits-Raised s.mem (ids t') (s.pc t') j (inv.own t' ht') w',
        Holds-Raised s.mem (ids t) (s.pc t) (inv.own t ht) (holds-Holds (s.pc t) inside),
        known.distinct t u ht hu,
        known.distinct t' u ht' hu,
        known.distinct t' t ht' ht,
      )
    ]
  where
    inv : Inv n ids s.mem s.pc
    inv = Reach-Inv known r
