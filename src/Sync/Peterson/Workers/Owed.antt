-- ===== src/Sync/Peterson/Workers/Owed.antt =====
-- No increment is missing when the workers of `peterson_two_threads_counter` are through.
use paracore.Base.{
  ℕ, zero, suc, ◌+◌, ◌*◌, ◌-◌, ◌%◌, ◌^◌, ◌<◌, ◌≡◌, ◌≢◌, refl, sym, subst, ap, ◌∙◌, inl, inr, true,
  false, ltb, ◌==◌, ◌&&◌, Bool-cases, ==→eq, ==→ne, if◌then◌else◌, List, [], ◌∷◌, Among,
  update_self, update_ne, arith,
}
use paracore.Core.Thread.{ThreadIds}
use paracore.Sync.Peterson.{Caller, Members, Pc}
use paracore.Sync.Peterson.System
use paracore.Sync.Peterson.System.{System, turn, is_alive}
use paracore.Sync.Peterson.Waiting.{own_step, step-place}
use paracore.Sync.Peterson.Guarded
use paracore.Sync.Peterson.Guarded.{Guarded, Section, Next, next, make}
use paracore.Sync.Peterson.Guarded.Counts.{counter-made}
use paracore.Sync.Peterson.Workers.{Workers, is_outside, step, init, run, run_all, Through}
use paracore.Sync.Peterson.Workers.Cost.{cost}
use paracore.Sync.Peterson.Workers.Counter.{counting, inside_left, step-make, make-section}
use paracore.Sync.Peterson.Workers.Effect.{lives-turn, outside-only, idle, goes_on, begins}
use paracore.Sync.Peterson.Workers.Window.{either}
use paracore.Sync.Peterson.Workers.Through.{Windows}
use paracore.Sync.Peterson.Aborts.{two_alive}
use paracore.Sync.Peterson.Guarded.Counts.{Reach-lock}

-- 1 in a round that has begun and has not stored the counter.
abbrev owed : Pc → Section → ℕ
owed p w = if ltb 6 (cost p (inside_left w)) then 1 else 0

owed-turn :
    (me : ℕ) (m : Members) (p : Pc) (w : Section)
    → next p w ≡ Next.lock_code
    → is_outside p ≡ false
    → is_alive (turn me p m).1 ≡ true
    → owed (turn me p m).1 Section.before ≡ owed p w
owed-turn me m Pc.outside w e o a = ground arith
owed-turn me m p w e o a = ground arith

owed-load :
    (p : Pc) (w : Section) (v : ℕ) → next p w ≡ Next.load → owed p (Section.loaded v) ≡ owed p w
owed-load Pc.outside w v e = ground arith
owed-load p w v e = ground arith

owed-store :
    (p : Pc) (w : Section) (v : ℕ) → next p w ≡ Next.store v → 1 + owed p Section.after ≡ owed p w
owed-store Pc.outside w v e = ground arith
owed-store p w v e = ground arith

-- The increments that a worker has still to make.
abbrev owes : ℕ → Workers counting → ℕ
owes t s = s.left t + owed (s.state.lock.pc t) (s.state.section t)

make-owed :
    (ids : ℕ → ℕ) (t : ℕ) (g : Guarded) (k : Next)
    → next (g.lock.pc t) (g.section t) ≡ k
    → is_outside (g.lock.pc t) ≡ false
    → g.lock.alive ≡ true
    → (make ids t k g).lock.alive ≡ true
    → (make ids t k g).made + owed ((make ids t k g).lock.pc t) ((make ids t k g).section t)
      ≡ g.made + owed (g.lock.pc t) (g.section t)
unfolding make
make-owed ids t g Next.load e o up up' =
    rw (update_self g.section t (Section.loaded g.counter))
      (ap (λ n. g.made + n) (owed-load (g.lock.pc t) (g.section t) g.counter e))
make-owed ids t g (Next.store v) e o up up' =
    rw (update_self g.section t Section.after)
      (omega (arith, owed-store (g.lock.pc t) (g.section t) v e))
make-owed ids t g Next.lock_code e o up up' =
    let (place, memory) = own_step ids t g.lock up in
    rw (place, update_self g.section t Section.before)
      (ap (λ n. g.made + n)
        (owed-turn (ids t) g.lock.mem (g.lock.pc t) (g.section t) e o
          (lives-turn ids t g.lock up up')))

make-place :
    (ids : ℕ → ℕ) (t u : ℕ) (g : Guarded) (k : Next)
    → t ≢ u
    → (make ids t k g).lock.pc u ≡ g.lock.pc u
unfolding make
make-place ids t u g Next.load ne = refl
make-place ids t u g (Next.store v) ne = refl
make-place ids t u g Next.lock_code ne = step-place ids u g.lock t ne

Through-owes :
    (t : ℕ) (s : Workers counting) → s.state.lock.pc t ≡ Pc.outside → s.left t ≡ 0 → owes t s ≡ 0
Through-owes t s e l = rw (e, l) refl

-- An access makes an increment that was owed, or leaves what is made and owed.
record Settled (t : ℕ) (s s' : Workers counting) : Type 0 where
  account : s'.state.made + owes t s' ≡ s.state.made + owes t s
  others : (u : ℕ) → t ≢ u → owes u s' ≡ owes u s

module _ (ids : ℕ → ℕ) (t : ℕ) (s : Workers counting) (up : s.state.lock.alive ≡ true) where
  idle-Settled : s.state.lock.pc t ≡ Pc.outside → s.left t ≡ 0 → Settled t s (step counting ids t s)
  idle-Settled e z =
      subst (Settled t s) (sym (idle counting ids t s up e z))
        (record { account = refl; others = λ u ne. refl })

  begins-Settled :
      s.state.lock.pc t ≡ Pc.outside → s.left t ≢ 0 → Settled t s (step counting ids t s)
  unfolding make
  begins-Settled e some =
      let code : Guarded.step ids t s.state ≡ make ids t Next.lock_code s.state =
        step-make ids t s.state up ∙ ap (λ p. make ids t (next p (s.state.section t)) s.state) e in
      let there : (System.step ids t s.state.lock).pc t ≡ Pc.claim_first Caller.lock =
        (own_step ids t s.state.lock up).0 ∙ ap (λ p. (turn (ids t) p s.state.lock.mem).1) e in
      rw (begins counting ids t s up e some, code)
        (record {
          account = rw (there, e, update_self s.left t (s.left t - 1)) (omega (arith, some));
          others = λ u ne.
              let place = make-place ids t u s.state Next.lock_code ne in
              rw
                (
                  place,
                  make-section ids t u s.state Next.lock_code ne,
                  update_ne s.left t u (s.left t - 1) ne,
                )
                refl;
        })

  round-Settled :
      (step counting ids t s).state.lock.alive ≡ true
      → is_outside (s.state.lock.pc t) ≡ false
      → Settled t s (step counting ids t s)
  round-Settled up' o =
      let k : Next = next (s.state.lock.pc t) (s.state.section t) in
      let code : Guarded.step ids t s.state ≡ make ids t k s.state = step-make ids t s.state up in
      let on =
        make-owed ids t s.state k refl o up (rw (goes_on counting ids t s up o, code) at up') in
      rw (goes_on counting ids t s up o, code)
        (record {
          account = omega (arith, on);
          others =
              λ u ne. rw (make-place ids t u s.state k ne, make-section ids t u s.state k ne) refl;
        })

-- The increments that are made and those that are owed are those of the loops.
pub record Inv (rounds : ℕ) (ids : ℕ → ℕ) (s : Workers counting) : Type 0 where
  pub reach : Guarded.Reach 2 ids s.state
  pub sum : s.state.made + owes 0 s + owes 1 s ≡ 2 * rounds

sum-kept :
    (t : ℕ) (s s' : Workers counting)
    → t < 2
    → Settled t s s'
    → s'.state.made + owes 0 s' + owes 1 s' ≡ s.state.made + owes 0 s + owes 1 s
sum-kept zero s s' ht w = omega (arith, w.account, w.others 1 (omega arith))
sum-kept (suc zero) s s' ht w = omega (arith, w.account, w.others 0 (omega arith))
sum-kept (suc (suc t)) s s' ht w = absurd (omega arith)

step-Reach :
    (ids : ℕ → ℕ) (t : ℕ) (s : Workers counting)
    → t < 2
    → Guarded.Reach 2 ids s.state
    → Guarded.Reach 2 ids (step counting ids t s).state
unfolding step
step-Reach ids t s ht r =
    either (λ k. Guarded.Reach 2 ids k.state) s.state.lock.alive
      (is_outside (s.state.lock.pc t) && (s.left t == 0)) s _ r (Guarded.later t ht r)

module _ {ids : ℕ → ℕ} (known : ThreadIds 2 ids) where
  lives : (s : Workers counting) → Guarded.Reach 2 ids s.state → s.state.lock.alive ≡ true
  lives s r = two_alive known (Reach-lock known r) (omega arith)

  step-Settled :
      (t : ℕ) (s : Workers counting)
      → t < 2
      → Guarded.Reach 2 ids s.state
      → Settled t s (step counting ids t s)
  step-Settled t s ht r = elim (Bool-cases (is_outside (s.state.lock.pc t))) [
    | inr o ↦
        round-Settled ids t s (lives s r) (lives (step counting ids t s) (step-Reach ids t s ht r))
          o
    | inl out ↦
        let e : s.state.lock.pc t ≡ Pc.outside = outside-only (s.state.lock.pc t) out in
        elim (Bool-cases (s.left t == 0)) [
          | inl none ↦ idle-Settled ids t s (lives s r) e (==→eq _ _ none)
          | inr some ↦ begins-Settled ids t s (lives s r) e (==→ne _ _ some)
        ]
  ]

  run-Inv :
      {rounds : ℕ} (ts : List ℕ) (s : Workers counting)
      → Among 2 ts
      → Inv rounds ids s
      → Inv rounds ids (run counting ids ts s)
  unfolding run
  run-Inv [] s all inv = inv
  run-Inv (t ∷ ts) s all inv = run-Inv ts (step counting ids t s) all.1 (record {
    reach = step-Reach ids t s all.0 inv.reach;
    sum = sum-kept t s (step counting ids t s) all.0 (step-Settled t s all.0 inv.reach) ∙ inv.sum;
  })

  run_all-Inv :
      {rounds : ℕ} (rs : List (List ℕ)) (s : Workers counting)
      → Windows rs
      → Inv rounds ids s
      → Inv rounds ids (run_all counting ids rs s)
  unfolding run_all
  run_all-Inv [] s ws inv = inv
  run_all-Inv (r ∷ rs) s (w, ws) inv =
      run_all-Inv rs (run counting ids r s) ws (run-Inv r s w.0 inv)

  -- When both are through, no increment is missing.
  pub all_counted :
      (rounds : ℕ) (rs : List (List ℕ))
      → Windows rs
      → Through counting 0 (run_all counting ids rs (init counting rounds))
      → Through counting 1 (run_all counting ids rs (init counting rounds))
      → (run_all counting ids rs (init counting rounds)).state.counter ≡ 2 * rounds % 2 ^ 64
  all_counted rounds rs ws (e, l) (f, k) =
      let end = run_all counting ids rs (init counting rounds) in
      let inv : Inv rounds ids (run_all counting ids rs (init counting rounds)) =
        run_all-Inv rs (init counting rounds) ws
          (record { reach = Guarded.start; sum = omega arith }) in
      counter-made known inv.reach
      ∙ ap (λ n. n % 2 ^ 64)
          (omega (arith, inv.sum, Through-owes 0 end e l, Through-owes 1 end f k))
