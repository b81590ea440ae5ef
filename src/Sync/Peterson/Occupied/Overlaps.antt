-- ===== src/Sync/Peterson/Occupied/Overlaps.antt =====
-- What the workers of the occupancy test meet.
use paracore.Base.{ℕ, ◌<◌, ◌≡◌, ◌≢◌, ◌⊎◌, refl, true, false, if◌then◌else◌, inl, inr, arith}
use paracore.Core.Thread.{ThreadIds}
use paracore.Sync.Peterson.{Pc}
use paracore.Sync.Peterson.System
use paracore.Sync.Peterson.Safety.{inside_alone}
use paracore.Sync.Peterson.Waiting.{step-place}
use paracore.Sync.Peterson.Occupied.{Section, Occupied, Next, next, make, step, Reach, start, later}

-- A thread that has added itself is inside, nobody has met another, and the count is of the thread
-- that has added itself, if there is one.
record Inv (n : ℕ) (ids : ℕ → ℕ) (s : Occupied) : Type 0 where
  lock : System.Reach n ids s.lock
  unmet : (t : ℕ) → t < n → s.section t ≢ Section.met
  entered : (t : ℕ) → t < n → s.section t ≡ Section.counted → s.lock.pc t ≡ Pc.inside
  none_noted : s.overlaps ≡ 0
  occupants :
      ((s.inside ≡ 0) × ((t : ℕ) → t < n → s.section t ≢ Section.counted))
      ⊎ ((s.inside ≡ 1) × ((t : ℕ) × (t < n) × (s.section t ≡ Section.counted)))

next-enter : (p : Pc) (w : Section) → next p w ≡ Next.enter → (p ≡ Pc.inside) × (w ≡ Section.before)
next-enter Pc.outside w e = ground arith
next-enter p w e = ground arith

next-note : (p : Pc) (w : Section) → next p w ≡ Next.note → w ≡ Section.met
next-note Pc.outside w e = ground arith
next-note p w e = ground arith

next-leave :
    (p : Pc) (w : Section) → next p w ≡ Next.leave → (p ≡ Pc.inside) × (w ≡ Section.counted)
next-leave Pc.outside w e = ground arith
next-leave p w e = ground arith

next-lock : (p : Pc) (w : Section) → next p w ≡ Next.lock_code → p ≡ Pc.inside → w ≡ Section.after
next-lock Pc.outside w e h = ground arith
next-lock p w e h = ground arith

module _ {n : ℕ} {ids : ℕ → ℕ} (known : ThreadIds n ids) where
  -- Nobody has added itself when a thread inside has not.
  empty :
      (s : Occupied)
      → Inv n ids s
      → (t : ℕ) → t < n
      → s.lock.pc t ≡ Pc.inside
      → s.section t ≡ Section.before
      → (s.inside ≡ 0) × ((u : ℕ) → u < n → s.section u ≢ Section.counted)
  empty s i t ht p w = elim i.occupants [
    | inl nobody ↦ nobody
    | inr (one, (u, hu, h)) ↦
        let same : t ≡ u = inside_alone known i.lock t u ht hu p (i.entered u hu h) in
        absurd (ground (arith, w, h, same))
  ]

  -- A thread that has added itself is the only one.
  single :
      (s : Occupied) → Inv n ids s → (t : ℕ) → t < n → s.section t ≡ Section.counted → s.inside ≡ 1
  single s i t ht w = elim i.occupants [
    | inl (zero_inside, nobody) ↦ absurd (nobody t ht w)
    | inr (one, u) ↦ one
  ]

  make-Inv :
      (s : Occupied)
      → Inv n ids s
      → (t : ℕ) → t < n
      → (k : Next) → next (s.lock.pc t) (s.section t) ≡ k
      → Inv n ids (make ids t k s)
  unfolding make
  make-Inv s i t ht Next.enter e =
      let (here, w) = next-enter (s.lock.pc t) (s.section t) e in
      let (zero_inside, nobody) = empty s i t ht here w in
      record {
        lock = i.lock;
        unmet = λ u hu. ground (arith, i.unmet u hu, zero_inside);
        entered = λ u hu h. ground (arith, i.entered u hu, here);
        none_noted = i.none_noted;
        occupants = inr (omega (arith, zero_inside), (t, ht, ground (arith, zero_inside)));
      }
  make-Inv s i t ht Next.note e = absurd (i.unmet t ht (next-note (s.lock.pc t) (s.section t) e))
  make-Inv s i t ht Next.leave e =
      let (here, w) = next-leave (s.lock.pc t) (s.section t) e in
      let one : s.inside ≡ 1 = single s i t ht w in
      let same : (u : ℕ) → u < n → s.section u ≡ Section.counted → t ≡ u =
        λ u hu c. inside_alone known i.lock t u ht hu here (i.entered u hu c) in
      record {
        lock = i.lock;
        unmet = λ u hu. ground (arith, i.unmet u hu);
        entered = λ u hu h. ground (arith, i.entered u hu);
        none_noted = i.none_noted;
        occupants = inl (omega (arith, one), λ u hu h. ground (arith, same u hu));
      }
  make-Inv s i t ht Next.lock_code e = record {
    lock = System.later t ht i.lock;
    unmet = λ u hu. ground (arith, i.unmet u hu);
    entered = λ u hu h. ground (arith, i.entered u hu, step-place ids u s.lock t);
    none_noted = i.none_noted;
    occupants = elim i.occupants [
      | inl (zero_inside, nobody) ↦ inl (zero_inside, λ u hu. ground (arith, nobody u hu))
      | inr (one, (u, hu, h)) ↦
          inr (
            one,
            (u, hu, ground (arith, i.entered u hu h, next-lock (s.lock.pc t) (s.section t) e)),
          )
    ];
  }

  Reach-Inv : {s : Occupied} → Reach n ids s → Inv n ids s
  unfolding step
  Reach-Inv start = record {
    lock = System.start;
    unmet = λ t h e. cc;
    entered = λ t h e. cc;
    none_noted = refl;
    occupants = inl (refl, λ t h e. cc);
  }
  Reach-Inv (later {s} t here r) =
      let kept : Inv n ids s = Reach-Inv r in
      let made : Inv n ids (make ids t (next (s.lock.pc t) (s.section t)) s) =
        make-Inv s kept t here (next (s.lock.pc t) (s.section t)) refl in
      elim s.lock.alive
        as (λ b. Inv n ids (if b then make ids t (next (s.lock.pc t) (s.section t)) s else s)) [
          | true ↦ made
          | false ↦ kept
        ]

-- The occupancy test meets no overlap: in every state that threads reach which take a PetersonLock,
-- add 1 to `inside`, note an overlap if it was not 0, and take 1 off again, whatever the order of
-- their accesses, `overlaps` is 0, and `inside` is 0 or 1. The ids are not 0 and differ.
pub no_overlaps :
    {n : ℕ} {ids : ℕ → ℕ} {s : Occupied}
    → ThreadIds n ids
    → Reach n ids s
    → (s.overlaps ≡ 0) × ((s.inside ≡ 0) ⊎ (s.inside ≡ 1))
no_overlaps known r =
    let i = Reach-Inv known r in
    (i.none_noted, elim i.occupants [ inl h ↦ inl h.0 | inr h ↦ inr h.0 ])
