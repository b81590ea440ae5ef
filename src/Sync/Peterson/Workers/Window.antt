-- ===== src/Sync/Peterson/Workers/Window.antt =====
-- While each of two workers makes two accesses, they come nearer to being through.
use paracore.Base.{
  ℕ, zero, suc, ◌+◌, ◌≤◌, ◌<◌, ◌≡◌, ◌⊎◌, inl, inr, refl, sym, subst, Bool, true, false, ◌==◌, ◌&&◌,
  if◌then◌else◌, Bool-cases, ==→eq, ==→ne, List, [], ◌∷◌, Among, arith,
}
use paracore.Core.Thread.{ThreadIds}
use paracore.Sync.Peterson.System
use paracore.Sync.Peterson.Aborts.{two_alive}
use paracore.Sync.Peterson.Starvation.{turns_of}
use paracore.Sync.Peterson.Workers.{Body, Brief, Workers, is_outside, is_busy, step, run}
use paracore.Sync.Peterson.Workers.Effect.{work, needs, Worked, step-Worked}

pub either {ℓ κ} :
    {A : Type ℓ} (P : A → Type κ) (b c : Bool) (s s' : A)
    → P s
    → P s'
    → P (if b then if c then s else s' else s)
either P true true s s' h k = h
either P true false s s' h k = k
either P false c s s' h k = h

module _ {B : Body} (brief : Brief B) where
  -- What both have to do.
  abbrev pub total : Workers B → ℕ
  total s = work brief 0 s + work brief 1 s

  -- The lock goes through states that its threads reach by themselves.
  body-Reach :
      (ids : ℕ → ℕ) (t : ℕ) (s : B.State)
      → t < 2
      → (B.lock s).alive ≡ true
      → System.Reach 2 ids (B.lock s)
      → System.Reach 2 ids (B.lock (B.step ids t s))
  body-Reach ids t s ht up r = elim (Bool-cases (is_busy ((B.lock s).pc t) (brief.rest s t))) [
    | inl busy ↦ subst (System.Reach 2 ids) (sym (brief.inner ids t s up busy).0) r
    | inr free ↦
        subst (System.Reach 2 ids) (sym (brief.code ids t s up free).0) (System.later t ht r)
  ]

  module _ {ids : ℕ → ℕ} (known : ThreadIds 2 ids) where
    abbrev pub Reached : Workers B → Type 0
    Reached s = System.Reach 2 ids (B.lock s.state)

    pub lives : (s : Workers B) → Reached s → (B.lock s.state).alive ≡ true
    lives s r = two_alive known r (omega arith)

    pub step-Reach : (t : ℕ) (s : Workers B) → t < 2 → Reached s → Reached (step B ids t s)
    unfolding step
    step-Reach t s ht r =
        either (λ k. System.Reach 2 ids (B.lock k.state)) (B.lock s.state).alive
          (is_outside ((B.lock s.state).pc t) && (s.left t == 0)) s _ r
          (body-Reach ids t s.state ht (lives s r) r)

    worked : (t : ℕ) (s : Workers B) → t < 2 → Reached s → Worked brief t s (step B ids t s)
    worked t s ht r =
        step-Worked brief ids t s (lives s r) (lives (step B ids t s) (step-Reach t s ht r))

    step-both :
        (t : ℕ) (s s' : Workers B)
        → t < 2
        → Worked brief t s s'
        → ((total s' < total s)
            ⊎ ((total s' ≡ total s) × ((B.lock s'.state).mem ≡ (B.lock s.state).mem)))
          × (work brief t s' < work brief t s → total s' < total s)
    step-both zero s s' ht w =
        let (same, place) = w.others 1 (omega arith) in
        (
          elim w.nearer [
            | inl less ↦ inl (omega (arith, less, same))
            | inr (still, memory) ↦ inr (omega (arith, still, same), memory)
          ],
          λ less. omega (arith, less, same),
        )
    step-both (suc zero) s s' ht w =
        let (same, place) = w.others 0 (omega arith) in
        (
          elim w.nearer [
            | inl less ↦ inl (omega (arith, less, same))
            | inr (still, memory) ↦ inr (omega (arith, still, same), memory)
          ],
          λ less. omega (arith, less, same),
        )
    step-both (suc (suc t)) s s' ht w = absurd (omega arith)

    step-total : (t : ℕ) (s : Workers B) → t < 2 → Reached s → total (step B ids t s) ≤ total s
    step-total t s ht r = elim (step-both t s (step B ids t s) ht (worked t s ht r)).0 [
      | inl less ↦ omega (arith, less)
      | inr (same, memory) ↦ omega (arith, same)
    ]

    pub run-Reach :
        (ts : List ℕ) (s : Workers B) → Among 2 ts → Reached s → Reached (run B ids ts s)
    unfolding run
    run-Reach [] s all r = r
    run-Reach (t ∷ ts) s all r = run-Reach ts (step B ids t s) all.1 (step-Reach t s all.0 r)

    pub run-total :
        (ts : List ℕ) (s : Workers B) → Among 2 ts → Reached s → total (run B ids ts s) ≤ total s
    unfolding run
    run-total [] s all r = omega arith
    run-total (t ∷ ts) s all r = omega (
      arith,
      step-total t s all.0 r,
      run-total ts (step B ids t s) all.1 (step-Reach t s all.0 r),
    )

    -- After an access less is left in all, or the worker can still come on, in one access of its
    -- own less if it was its own.
    Nearer : (t u : ℕ) → Workers B → Workers B → Type 0
    Nearer t u s s' =
        (total s' < total s)
        ⊎ ((0 < work brief u s')
            × (0 < needs brief u s')
            × ((if t == u then 1 else 0) + needs brief u s' ≤ needs brief u s))

    own-Nearer :
        (t : ℕ) (s s' : Workers B)
        → t < 2
        → Worked brief t s s'
        → 0 < work brief t s
        → 0 < needs brief t s
        → (total s' < total s)
          ⊎ ((0 < work brief t s')
              × (0 < needs brief t s')
              × (1 + needs brief t s' ≤ needs brief t s))
    own-Nearer t s s' ht w busy can =
        let (nearer, drop) = step-both t s s' ht w in
        elim w.nearer [
          | inl less ↦ inl (drop less)
          | inr (still, memory) ↦ elim (w.comes busy can) [
            | inl less ↦ inl (drop less)
            | inr (left, less) ↦
                inr (omega (arith, still, busy), rw memory left, rw memory (omega (arith, less)))
          ]
        ]

    step-Nearer :
        (t u : ℕ) (s s' : Workers B)
        → t < 2
        → Worked brief t s s'
        → 0 < work brief u s
        → 0 < needs brief u s
        → Nearer t u s s'
    unfolding Nearer
    step-Nearer t u s s' ht w busy can = elim (Bool-cases (t == u)) [
      | inl own ↦ rw own (
          subst
            (λ k.
              (total s' < total s)
              ⊎ ((0 < work brief k s')
                  × (0 < needs brief k s')
                  × (1 + needs brief k s' ≤ needs brief k s)))
            (==→eq t u own)
            (own-Nearer t s s' ht w (subst (λ k. 0 < work brief k s) (sym (==→eq t u own)) busy)
              (subst (λ k. 0 < needs brief k s) (sym (==→eq t u own)) can)))
      | inr apart ↦
          let (still, place) = w.others u (==→ne t u apart) in
          elim (step-both t s s' ht w).0 [
            | inl less ↦ inl less
            | inr (same, memory) ↦
                let waits : needs brief u s' ≡ needs brief u s = rw (place, memory) refl in
                inr (
                  omega (arith, still, busy),
                  omega (arith, waits, can),
                  rw apart (omega (arith, waits)),
                )
          ]
    ]

    -- A worker that can come on does so in as many accesses of its own as it needs.
    pub comes_on :
        (u : ℕ) (ts : List ℕ) (s : Workers B)
        → Among 2 ts
        → Reached s
        → 0 < work brief u s
        → 0 < needs brief u s
        → needs brief u s ≤ turns_of u ts
        → total (run B ids ts s) < total s
    unfolding run Nearer
    comes_on u [] s all r busy can enough = absurd (omega arith)
    comes_on u (t ∷ ts) s all r busy can enough =
        let r' : Reached (step B ids t s) = step-Reach t s all.0 r in
        let mono : total (run B ids ts (step B ids t s)) ≤ total (step B ids t s) =
          run-total ts (step B ids t s) all.1 r' in
        elim (step-Nearer t u s (step B ids t s) all.0 (worked t s all.0 r) busy can) [
          | inl less ↦ omega (arith, less, mono)
          | inr (busy', can', fewer) ↦
              let rest : total (run B ids ts (step B ids t s)) < total (step B ids t s) =
                comes_on u ts (step B ids t s) all.1 r' busy' can' (omega (arith, fewer, enough)) in
              omega (arith, rest, step-total t s all.0 r)
        ]
