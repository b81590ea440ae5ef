-- ===== src/Sync/Peterson/Workers/Counter.antt =====
-- The workers of `peterson_two_threads_counter`: the body of the loop is Sync.Peterson.Guarded.
use paracore.Base.{
  ℕ, ◌≤◌, ◌<◌, ◌≡◌, ◌≢◌, refl, ap, inl, inr, true, false, Bool-cases, update_self, update_ne, arith,
}
use paracore.Sync.Peterson.{Pc}
use paracore.Sync.Peterson.System
use paracore.Sync.Peterson.System.{System, turn, is_alive}
use paracore.Sync.Peterson.Guarded
use paracore.Sync.Peterson.Guarded.{Guarded, Section, Next, next, make}
use paracore.Sync.Peterson.Workers.{Body, Brief, is_busy}

abbrev pub counting : Body
counting = record { State = Guarded; lock = λ g. g.lock; start = Guarded.init; step = Guarded.step }

-- The load and the store of the counter.
abbrev pub inside_left : Section → ℕ
inside_left Section.before = 2
inside_left (Section.loaded v) = 1
inside_left Section.after = 0

next-code : (p : Pc) (w : Section) → is_busy p (inside_left w) ≡ false → next p w ≡ Next.lock_code
next-code Pc.outside w b = refl
next-code p w b = ground arith

pub step-make :
    (ids : ℕ → ℕ) (t : ℕ) (g : Guarded)
    → g.lock.alive ≡ true
    → Guarded.step ids t g ≡ make ids t (next (g.lock.pc t) (g.section t)) g
unfolding Guarded.step
step-make ids t g up = rw up refl

step-down : (ids : ℕ → ℕ) (t : ℕ) (g : Guarded) → g.lock.alive ≡ false → Guarded.step ids t g ≡ g
unfolding Guarded.step
step-down ids t g down = rw down refl

module _ (ids : ℕ → ℕ) (t : ℕ) (g : Guarded) (up : g.lock.alive ≡ true) where
  counting-code :
      is_busy (g.lock.pc t) (inside_left (g.section t)) ≡ false
      → ((Guarded.step ids t g).lock ≡ System.step ids t g.lock)
        × (inside_left ((Guarded.step ids t g).section t) ≤ 3)
  unfolding make
  counting-code b =
      rw
        (
          step-make ids t g up,
          next-code (g.lock.pc t) (g.section t) b,
          update_self g.section t Section.before,
        )
        (refl, omega arith)

  busy_by :
      (p : Pc) (w : Section)
      → is_busy p (inside_left w) ≡ true
      → ((make ids t (next p w) g).lock ≡ g.lock)
        × (inside_left ((make ids t (next p w) g).section t) < inside_left w)
  unfolding make
  busy_by Pc.outside w b = cc
  busy_by Pc.inside Section.before b =
      rw (update_self g.section t (Section.loaded g.counter)) (refl, omega arith)
  busy_by Pc.inside (Section.loaded v) b =
      rw (update_self g.section t Section.after) (refl, omega arith)
  busy_by p w b = ground arith

  counting-inner :
      is_busy (g.lock.pc t) (inside_left (g.section t)) ≡ true
      → ((Guarded.step ids t g).lock ≡ g.lock)
        × (inside_left ((Guarded.step ids t g).section t) < inside_left (g.section t))
  counting-inner b = rw (step-make ids t g up) (busy_by (g.lock.pc t) (g.section t) b)

pub make-section :
    (ids : ℕ → ℕ) (t u : ℕ) (g : Guarded) (k : Next)
    → t ≢ u
    → (make ids t k g).section u ≡ g.section u
unfolding make
make-section ids t u g Next.load ne = update_ne g.section t u _ ne
make-section ids t u g (Next.store v) ne = update_ne g.section t u _ ne
make-section ids t u g Next.lock_code ne = update_ne g.section t u _ ne

counting-others :
    (ids : ℕ → ℕ) (t u : ℕ) (g : Guarded) → t ≢ u → (Guarded.step ids t g).section u ≡ g.section u
counting-others ids t u g ne = elim (Bool-cases g.lock.alive) [
  | inl up ↦
      rw (step-make ids t g up) (make-section ids t u g (next (g.lock.pc t) (g.section t)) ne)
  | inr down ↦ rw (step-down ids t g down) refl
]

pub counting-Brief : Brief counting
counting-Brief = record {
  rest = λ g t. inside_left (g.section t);
  fresh = refl;
  code = counting-code;
  inner = counting-inner;
  others = λ ids t u g ne. ap inside_left (counting-others ids t u g ne);
}
