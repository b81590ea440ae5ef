-- ===== src/Sync/Peterson/Workers/Occupancy.antt =====
-- The workers of `peterson_two_threads_occupancy`: the body of the loop is Sync.Peterson.Occupied.
use paracore.Base.{
  ℕ, ◌≤◌, ◌<◌, ◌≡◌, ◌≢◌, refl, ap, inl, inr, true, false, ◌==◌, ◌&&◌, Bool-cases, List, [], ◌∷◌,
  Among, if◌then◌else◌, update_self, update_ne, arith,
}
use paracore.Core.Thread.{ThreadIds}
use paracore.Sync.Peterson.{Pc}
use paracore.Sync.Peterson.System
use paracore.Sync.Peterson.Occupied
use paracore.Sync.Peterson.Occupied.{Occupied, Section, Next, next, make}
use paracore.Sync.Peterson.Occupied.Overlaps.{no_overlaps}
use paracore.Sync.Peterson.Workers.{
  Body, Brief, Workers, is_outside, is_busy, step, init, run, run_all,
}
use paracore.Sync.Peterson.Workers.Window.{either}
use paracore.Sync.Peterson.Workers.Through.{Windows}

abbrev pub occupying : Body
occupying = record {
  State = Occupied;
  lock = λ o. o.lock;
  start = Occupied.init;
  step = Occupied.step;
}

-- The operations on `inside` and `overlaps`.
abbrev inside_left : Section → ℕ
inside_left Section.before = 3
inside_left Section.met = 2
inside_left Section.counted = 1
inside_left Section.after = 0

next-code : (p : Pc) (w : Section) → is_busy p (inside_left w) ≡ false → next p w ≡ Next.lock_code
next-code Pc.outside w b = refl
next-code p w b = ground arith

step-make :
    (ids : ℕ → ℕ) (t : ℕ) (o : Occupied)
    → o.lock.alive ≡ true
    → Occupied.step ids t o ≡ make ids t (next (o.lock.pc t) (o.section t)) o
unfolding Occupied.step
step-make ids t o up = rw up refl

step-down : (ids : ℕ → ℕ) (t : ℕ) (o : Occupied) → o.lock.alive ≡ false → Occupied.step ids t o ≡ o
unfolding Occupied.step
step-down ids t o down = rw down refl

module _ (ids : ℕ → ℕ) (t : ℕ) (o : Occupied) (up : o.lock.alive ≡ true) where
  occupying-code :
      is_busy (o.lock.pc t) (inside_left (o.section t)) ≡ false
      → ((Occupied.step ids t o).lock ≡ System.step ids t o.lock)
        × (inside_left ((Occupied.step ids t o).section t) ≤ 3)
  unfolding make
  occupying-code b =
      rw
        (
          step-make ids t o up,
          next-code (o.lock.pc t) (o.section t) b,
          update_self o.section t Section.before,
        )
        (refl, omega arith)

  met_or_not : inside_left (if o.inside == 0 then Section.counted else Section.met) < 3
  met_or_not = ground arith

  busy_by :
      (p : Pc) (w : Section)
      → is_busy p (inside_left w) ≡ true
      → ((make ids t (next p w) o).lock ≡ o.lock)
        × (inside_left ((make ids t (next p w) o).section t) < inside_left w)
  unfolding make
  busy_by Pc.outside w b = cc
  busy_by Pc.inside Section.before b =
      rw (update_self o.section t (if o.inside == 0 then Section.counted else Section.met))
        (refl, met_or_not)
  busy_by Pc.inside Section.met b = rw (update_self o.section t Section.counted) (refl, omega arith)
  busy_by Pc.inside Section.counted b =
      rw (update_self o.section t Section.after) (refl, omega arith)
  busy_by p w b = ground arith

  occupying-inner :
      is_busy (o.lock.pc t) (inside_left (o.section t)) ≡ true
      → ((Occupied.step ids t o).lock ≡ o.lock)
        × (inside_left ((Occupied.step ids t o).section t) < inside_left (o.section t))
  occupying-inner b = rw (step-make ids t o up) (busy_by (o.lock.pc t) (o.section t) b)

make-section :
    (ids : ℕ → ℕ) (t u : ℕ) (o : Occupied) (k : Next)
    → t ≢ u
    → (make ids t k o).section u ≡ o.section u
unfolding make
make-section ids t u o Next.enter ne = update_ne o.section t u _ ne
make-section ids t u o Next.note ne = update_ne o.section t u _ ne
make-section ids t u o Next.leave ne = update_ne o.section t u _ ne
make-section ids t u o Next.lock_code ne = update_ne o.section t u _ ne

occupying-others :
    (ids : ℕ → ℕ) (t u : ℕ) (o : Occupied) → t ≢ u → (Occupied.step ids t o).section u ≡ o.section u
occupying-others ids t u o ne = elim (Bool-cases o.lock.alive) [
  | inl up ↦
      rw (step-make ids t o up) (make-section ids t u o (next (o.lock.pc t) (o.section t)) ne)
  | inr down ↦ rw (step-down ids t o down) refl
]

pub occupying-Brief : Brief occupying
occupying-Brief = record {
  rest = λ o t. inside_left (o.section t);
  fresh = refl;
  code = occupying-code;
  inner = occupying-inner;
  others = λ ids t u o ne. ap inside_left (occupying-others ids t u o ne);
}

run-Reach :
    (ids : ℕ → ℕ) (ts : List ℕ) (s : Workers occupying)
    → Among 2 ts
    → Occupied.Reach 2 ids s.state
    → Occupied.Reach 2 ids (run occupying ids ts s).state
unfolding run step
run-Reach ids [] s all r = r
run-Reach ids (t ∷ ts) s all r = run-Reach ids ts (step occupying ids t s) all.1 (
    either (λ k. Occupied.Reach 2 ids k.state) s.state.lock.alive
      (is_outside (s.state.lock.pc t) && (s.left t == 0)) s _ r (Occupied.later t all.0 r))

run_all-Reach :
    (ids : ℕ → ℕ) (rs : List (List ℕ)) (s : Workers occupying)
    → Windows rs
    → Occupied.Reach 2 ids s.state
    → Occupied.Reach 2 ids (run_all occupying ids rs s).state
unfolding run_all
run_all-Reach ids [] s ws r = r
run_all-Reach ids (w ∷ rs) s ws r =
    run_all-Reach ids rs (run occupying ids w s) ws.1 (run-Reach ids w s ws.0.0 r)

-- The workers note no overlap.
pub none_noted :
    {ids : ℕ → ℕ}
    → ThreadIds 2 ids
    → (rounds : ℕ) (rs : List (List ℕ)) → Windows rs
    → (run_all occupying ids rs (init occupying rounds)).state.overlaps ≡ 0
none_noted {ids} known rounds rs ws =
    (no_overlaps known (run_all-Reach ids rs (init occupying rounds) ws Occupied.start)).0
