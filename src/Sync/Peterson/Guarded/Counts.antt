-- ===== src/Sync/Peterson/Guarded/Counts.antt =====
-- What a PetersonLock does for the counter behind it.
use paracore.Base.{
  ℕ, ◌%◌, ◌^◌, ◌<◌, ◌≡◌, refl, true, false, if◌then◌else◌, ◌==◌, inl, inr, Bool-cases, ==→ne,
  update, arith,
}
use paracore.Core.Thread.{ThreadIds}
use paracore.Sync.Peterson.{Pc}
use paracore.Sync.Peterson.System
use paracore.Sync.Peterson.Safety.{inside_alone}
use paracore.Sync.Peterson.Waiting.{step-place}
use paracore.Sync.Peterson.Guarded.{Section, Guarded, Next, next, make, step, Reach, start, later}

-- A thread between its load and its store is inside, and has loaded what the counter still is.
record Inv (n : ℕ) (ids : ℕ → ℕ) (s : Guarded) : Type 0 where
  lock : System.Reach n ids s.lock
  inside : (t v : ℕ) → t < n → s.section t ≡ Section.loaded v → s.lock.pc t ≡ Pc.inside
  fresh : (t v : ℕ) → t < n → s.section t ≡ Section.loaded v → v ≡ s.counter
  counted : s.counter ≡ s.made % 2 ^ 64

next-load : (p : Pc) (w : Section) → next p w ≡ Next.load → p ≡ Pc.inside
next-load Pc.outside w e = ground arith
next-load p w e = ground arith

next-store :
    (p : Pc) (w : Section) (v : ℕ)
    → next p w ≡ Next.store v
    → (p ≡ Pc.inside) × (w ≡ Section.loaded v)
next-store Pc.outside w v e = ground arith
next-store p w v e = ground arith

make-Inv :
    {n : ℕ} {ids : ℕ → ℕ} (s : Guarded)
    → ThreadIds n ids
    → Inv n ids s
    → (t : ℕ) → t < n
    → (k : Next) → next (s.lock.pc t) (s.section t) ≡ k
    → Inv n ids (make ids t k s)
unfolding make
make-Inv {n} {ids} s known i t ht Next.load e = record {
  lock = i.lock;
  inside = λ u v hu h. ground (arith, i.inside u v hu, next-load (s.lock.pc t) (s.section t) e);
  fresh = λ u v hu h. ground (arith, i.fresh u v hu);
  counted = i.counted;
}
make-Inv {n} {ids} s known i t ht (Next.store w) e = record {
  lock = i.lock;
  inside = λ u v hu h. ground (arith, i.inside u v hu);
  fresh = λ u v hu h. absurd (other u v hu h);
  counted = omega (arith, i.counted, i.fresh t w ht stored.1);
}
  where
    stored : (s.lock.pc t ≡ Pc.inside) × (s.section t ≡ Section.loaded w)
    stored = next-store (s.lock.pc t) (s.section t) w e

    other : (u v : ℕ) → u < n → update s.section t Section.after u ≡ Section.loaded v → ⊥
    other u v hu h = elim (Bool-cases (t == u)) [
      | inl same ↦ ground (arith)
      | inr apart ↦
          ==→ne t u apart
            (inside_alone known i.lock t u ht hu stored.0 (i.inside u v hu (ground arith)))
    ]
make-Inv {n} {ids} s known i t ht Next.lock_code e = record {
  lock = System.later t ht i.lock;
  inside = λ u v hu h. ground (arith, i.inside u v hu, step-place ids u s.lock t);
  fresh = λ u v hu h. ground (arith, i.fresh u v hu);
  counted = i.counted;
}

Reach-Inv : {n : ℕ} {ids : ℕ → ℕ} {s : Guarded} → ThreadIds n ids → Reach n ids s → Inv n ids s
unfolding step
Reach-Inv known start = record {
  lock = System.start;
  inside = λ t v h e. cc;
  fresh = λ t v h e. cc;
  counted = omega arith;
}
Reach-Inv {n} {ids} known (later {s} t here r) =
    let kept : Inv n ids s = Reach-Inv known r in
    let made : Inv n ids (make ids t (next (s.lock.pc t) (s.section t)) s) =
      make-Inv s known kept t here (next (s.lock.pc t) (s.section t)) refl in
    elim s.lock.alive
      as (λ b. Inv n ids (if b then make ids t (next (s.lock.pc t) (s.section t)) s else s)) [
        | true ↦ made
        | false ↦ kept
      ]

-- No increment is lost behind a PetersonLock: when threads take the lock around a plain
-- `++counter`, which loads and then stores, the counter is at each moment the number of the
-- increments stored so far, modulo 2 ^ 64. The ids are not 0 and differ.
pub counter-made :
    {n : ℕ} {ids : ℕ → ℕ} {s : Guarded}
    → ThreadIds n ids
    → Reach n ids s
    → s.counter ≡ s.made % 2 ^ 64
counter-made known r = (Reach-Inv known r).counted

-- The lock goes through states that its threads reach by themselves.
pub Reach-lock :
    {n : ℕ} {ids : ℕ → ℕ} {s : Guarded}
    → ThreadIds n ids
    → Reach n ids s
    → System.Reach n ids s.lock
Reach-lock known r = (Reach-Inv known r).lock
