-- ===== src/Sync/Peterson/Workers/Through.antt =====
-- Both workers come to be through with their loops, in any order in which both go on.
use paracore.Base.{
  ℕ, zero, suc, ◌*◌, ◌≤◌, ◌<◌, ◌≡◌, ◌≢◌, inl, inr, refl, sym, subst, true, ◌==◌, Bool-cases, ==→eq,
  ==→ne, List, [], ◌∷◌, length, Among, arith,
}
use paracore.Core.Thread.{ThreadIds}
use paracore.Sync.Peterson.{Slot, other, index, flag, victim, Members, Pc}
use paracore.Sync.Peterson.System
use paracore.Sync.Peterson.System.{is_alive}
use paracore.Sync.Peterson.Invariant.{Waits}
use paracore.Sync.Peterson.Progress.{no_deadlock, Unblocked}
use paracore.Sync.Peterson.Aborts.{lives-places}
use paracore.Sync.Peterson.Starvation.{turns_of}
use paracore.Sync.Peterson.Workers.{Body, Brief, Workers, init, run, run_all, Through}
use paracore.Sync.Peterson.Workers.Cost.{cost, need}
use paracore.Sync.Peterson.Workers.Effect.{work, needs}
use paracore.Sync.Peterson.Workers.Window.{total, Reached, lives, run-Reach, run-total, comes_on}

-- Who cannot come on waits, is the victim, and sees the other flag.
need-zero :
    (p : Pc) (m : Members)
    → need p m ≡ 0
    → (i : Slot) × Waits p i × (m (flag (other i)) ≢ 0) × (m victim ≡ index i)
need-zero Pc.outside m e = ground arith
need-zero (Pc.see_flag i) m e = (i, refl, ground arith, ground arith)
need-zero (Pc.see_victim i) m e = (i, refl, ground arith, ground arith)
need-zero p m e = ground arith

Unblocked-need : (p : Pc) (m : Members) (r : ℕ) → Unblocked m p → (0 < need p m) × (0 < cost p r)
Unblocked-need Pc.outside m r h = ground arith
Unblocked-need p m r h = ground arith

need-le : (p : Pc) (m : Members) → need p m ≤ 2
need-le Pc.outside m = ground arith
need-le p m = ground arith

cost-zero : (p : Pc) (r : ℕ) → is_alive p ≡ true → cost p r ≡ 0 → p ≡ Pc.outside
cost-zero Pc.outside r a e = refl
cost-zero p r a e = ground arith

-- A schedule in which both make two accesses, and nobody else does any.
abbrev pub Window : List ℕ → Type 0
Window r = Among 2 r × (2 ≤ turns_of 0 r) × (2 ≤ turns_of 1 r)

abbrev pub Windows : List (List ℕ) → Type 0
Windows [] = Unit
Windows (r ∷ rs) = Window r × Windows rs

turns-two : (u : ℕ) (r : List ℕ) → u < 2 → Window r → 2 ≤ turns_of u r
turns-two zero r h w = w.1
turns-two (suc zero) r h w = w.2
turns-two (suc (suc u)) r h w = absurd (omega arith)

module _ {B : Body} (brief : Brief B) {ids : ℕ → ℕ} (known : ThreadIds 2 ids) where
  -- While one worker has something to do, one of the two can come on.
  some_can :
      (t : ℕ) (s : Workers B)
      → t < 2
      → Reached brief known s
      → 0 < work brief t s
      → (u : ℕ) × (u < 2) × (0 < work brief u s) × (0 < needs brief u s)
  some_can t s ht r busy = elim (Bool-cases (needs brief t s == 0)) [
    | inr can ↦ (t, ht, busy, omega (arith, ==→ne _ _ can))
    | inl stuck ↦
        let (i, waits, up, v) =
          need-zero ((B.lock s.state).pc t) (B.lock s.state).mem (==→eq _ _ stuck) in
        let (u, hu, ne, free) = no_deadlock known r t ht i waits up v in
        let (can, far) =
          Unblocked-need ((B.lock s.state).pc u) (B.lock s.state).mem (brief.rest s.state u) free in
        (u, hu, omega (arith, far), can)
  ]

  -- A window takes the two nearer to being through.
  window :
      (r : List ℕ) (s : Workers B)
      → Window r
      → Reached brief known s
      → 0 < total brief s
      → total brief (run B ids r s) < total brief s
  window r s w reached busy =
      let (u, hu, far, can) : (u : ℕ) × (u < 2) × (0 < work brief u s) × (0 < needs brief u s) =
        elim (Bool-cases (work brief 0 s == 0)) [
          | inr some ↦ some_can 0 s (omega arith) reached (omega (arith, ==→ne _ _ some))
          | inl none ↦ some_can 1 s (omega arith) reached (omega (arith, busy, ==→eq _ _ none))
        ] in
      comes_on brief known u r s w.0 reached far can
        (omega (arith, need-le ((B.lock s.state).pc u) (B.lock s.state).mem, turns-two u r hu w))

  windows :
      (rs : List (List ℕ)) (s : Workers B)
      → Windows rs
      → Reached brief known s
      → total brief s ≤ length rs
      → (total brief (run_all B ids rs s) ≡ 0) × Reached brief known (run_all B ids rs s)
  unfolding run_all
  windows [] s w reached few = (omega arith, reached)
  windows (r ∷ rs) s (w, ws) reached few =
      windows rs (run B ids r s) ws (run-Reach brief known r s w.0 reached)
        (elim (Bool-cases (total brief s == 0)) [
          | inr some ↦ omega (arith, few, window r s w reached (omega (arith, ==→ne _ _ some)))
          | inl none ↦ omega (arith, run-total brief known r s w.0 reached, ==→eq _ _ none)
        ])

  ends : (t : ℕ) (s : Workers B) → Reached brief known s → work brief t s ≡ 0 → Through B t s
  ends t s r e =
      let up = lives-places r (lives brief known s r) t in
      (
        cost-zero ((B.lock s.state).pc t) (brief.rest s.state t) up (omega (arith, e)),
        omega (arith, e),
      )

  -- From the start, in any order of their accesses in which often enough both make two.
  pub workers_end :
      (rounds : ℕ) (rs : List (List ℕ))
      → Windows rs
      → 34 * rounds ≤ length rs
      → Through B 0 (run_all B ids rs (init B rounds))
        × Through B 1 (run_all B ids rs (init B rounds))
  workers_end rounds rs ws enough =
      let begun : Reached brief known (init B rounds) =
        subst (System.Reach 2 ids) (sym brief.fresh) System.start in
      let all : total brief (init B rounds) ≤ length rs = rw brief.fresh (omega (arith, enough)) in
      let (none, r) : (total brief (run_all B ids rs (init B rounds)) ≡ 0)
          × Reached brief known (run_all B ids rs (init B rounds)) =
        windows rs (init B rounds) ws begun all in
      (
        ends 0 (run_all B ids rs (init B rounds)) r (omega (arith, none)),
        ends 1 (run_all B ids rs (init B rounds)) r (omega (arith, none)),
      )
