-- ===== src/Sync/Peterson/Returns/Arrival.antt =====
-- A thread that makes seven accesses holds the lock on the way, or waits, and then it has a slot.
use paracore.Base.{
  ℕ, ◌+◌, ◌≤◌, ◌<◌, ◌≡◌, ◌⊎◌, inl, inr, refl, sym, subst, List, [], ◌∷◌, ◌++◌, true, ◌==◌,
  if◌then◌else◌, Bool-cases, ==→eq, ==→ne, Among, arith,
}
use paracore.Sync.Peterson.{Slot, Caller, Members, Pc}
use paracore.Sync.Peterson.System.{System, turn, step, is_alive, Reach, later}
use paracore.Sync.Peterson.Invariant.{Holds, Waits}
use paracore.Sync.Peterson.Waiting.{run, step-place, step_alive, run_alive, own_step}
use paracore.Sync.Peterson.Bypass.{KeepsWaiting}
use paracore.Sync.Peterson.Bypass.Behind.{step-dead}
use paracore.Sync.Peterson.Aborts.{lives-places}
use paracore.Sync.Peterson.Starvation.{turns_of}
use paracore.Sync.Peterson.Returns.{Enters, way}

way-turn : (me : ℕ) (p : Pc) (m : Members) → 0 < way p → way (turn me p m).1 < way p
way-turn me Pc.outside m h = ground arith
way-turn me p m h = ground arith

-- At the end of the way a live thread holds the lock or waits.
way-ends : (p : Pc) → way p ≡ 0 → is_alive p ≡ true → Holds p ⊎ ((i : Slot) × Waits p i)
way-ends Pc.outside e a = ground arith
way-ends (Pc.see_flag i) e a = inr (i, refl)
way-ends (Pc.see_victim i) e a = inr (i, refl)
way-ends Pc.inside e a = inl tt
way-ends (Pc.claim_first Caller.unlock) e a = inl tt
way-ends (Pc.check_first Caller.unlock) e a = inl tt
way-ends (Pc.claim_second Caller.unlock) e a = inl tt
way-ends (Pc.check_second Caller.unlock) e a = inl tt
way-ends (Pc.lower_flag i) e a = inl tt
way-ends p e a = ground arith

Waits-on :
    (me : ℕ) (p : Pc) (m : Members) (i : Slot)
    → Waits p i
    → Holds (turn me p m).1 ⊎ Waits (turn me p m).1 i
Waits-on me Pc.outside m i w = absurd w
Waits-on me p m i w = ground arith

module _ (ids : ℕ → ℕ) (u : ℕ) where
  Enters-now : (ts : List ℕ) (s : System) → Holds (s.pc u) → Enters ids u ts s
  unfolding Enters
  Enters-now [] s h = h
  Enters-now (t ∷ ts) s h = inl h

  Enters-end : (ts : List ℕ) (s : System) → Holds ((run ids ts s).pc u) → Enters ids u ts s
  unfolding Enters run
  Enters-end [] s h = h
  Enters-end (t ∷ ts) s h = inr (Enters-end ts (step ids t s) h)

  -- A thread that waits goes on waiting, or holds the lock.
  keeps_or_holds :
      (t : ℕ) (s : System) (i : Slot)
      → Waits (s.pc u) i
      → Holds ((step ids t s).pc u) ⊎ Waits ((step ids t s).pc u) i
  keeps_or_holds t s i w = elim (Bool-cases (t == u)) [
    | inr apart ↦ inr (subst (λ p. Waits p i) (sym (step-place ids u s t (==→ne t u apart))) w)
    | inl own ↦
        subst (λ k. Holds ((step ids k s).pc u) ⊎ Waits ((step ids k s).pc u) i)
          (sym (==→eq t u own))
          (elim (Bool-cases s.alive) [
            | inl up ↦ rw (own_step ids u s up).0 (Waits-on (ids u) (s.pc u) s.mem i w)
            | inr down ↦ rw (step-dead ids u s down) (inr w)
          ])
  ]

  pub keeps_or_comes :
      (ts : List ℕ) (s : System) (i : Slot)
      → Waits (s.pc u) i
      → Enters ids u ts s ⊎ KeepsWaiting ids u i ts s
  unfolding Enters KeepsWaiting
  keeps_or_comes [] s i w = inr w
  keeps_or_comes (t ∷ ts) s i w = elim (keeps_or_holds t s i w) [
    | inl h ↦ inl (inr (Enters-now ts (step ids t s) h))
    | inr w' ↦ elim (keeps_or_comes ts (step ids t s) i w') [
      | inl e ↦ inl (inr e)
      | inr k ↦ inr (w, k)
    ]
  ]

  -- Where the thread is after a schedule, if it has not held the lock.
  Nears : List ℕ → System → Type 0
  Nears ts s =
      Enters ids u ts s
      ⊎ (((i : Slot) × Waits ((run ids ts s).pc u) i)
          ⊎ (turns_of u ts + way ((run ids ts s).pc u) ≤ way (s.pc u)))

  pub keeps-end :
      (ts : List ℕ) (s : System) (i : Slot)
      → KeepsWaiting ids u i ts s
      → Waits ((run ids ts s).pc u) i
  unfolding run KeepsWaiting
  keeps-end [] s i w = w
  keeps-end (t ∷ ts) s i w = keeps-end ts (step ids t s) i w.1

  -- A thread that waits holds the lock in the schedule, or waits at its end.
  waiting-Nears : (ts : List ℕ) (s : System) (i : Slot) → Waits (s.pc u) i → Nears ts s
  unfolding Nears
  waiting-Nears ts s i w = elim (keeps_or_comes ts s i w) [
    | inl e ↦ inl e
    | inr k ↦ inr (inl (i, keeps-end ts s i k))
  ]

  step-way :
      (t : ℕ) (s : System)
      → s.alive ≡ true
      → 0 < way (s.pc u)
      → (if t == u then 1 else 0) + way ((step ids t s).pc u) ≤ way (s.pc u)
  step-way t s up far = elim (Bool-cases (t == u)) [
    | inr apart ↦ rw (apart, step-place ids u s t (==→ne t u apart)) (omega arith)
    | inl own ↦ rw own (
        subst (λ k. 1 + way ((step ids k s).pc u) ≤ way (s.pc u)) (sym (==→eq t u own))
          (rw (own_step ids u s up).0 (omega (arith, way-turn (ids u) (s.pc u) s.mem far))))
  ]

  nears :
      {n : ℕ} (ts : List ℕ) (s : System)
      → Reach n ids s
      → Among n ts
      → (run ids ts s).alive ≡ true
      → Nears ts s
  unfolding Nears run Enters
  nears [] s r all up = inr (inr (omega arith))
  nears (t ∷ ts) s r all up =
      let lives : s.alive ≡ true = step_alive ids t s (run_alive ids ts (step ids t s) up) in
      let ih : Nears ts (step ids t s) = nears ts (step ids t s) (later t all.0 r) all.1 up in
      elim (Bool-cases (way (s.pc u) == 0)) [
        | inl there ↦ elim (way-ends (s.pc u) (==→eq _ _ there) (lives-places r lives u)) [
          | inl h ↦ inl (inl h)
          | inr (i, w) ↦ waiting-Nears (t ∷ ts) s i w
        ]
        | inr far ↦ elim ih [
          | inl e ↦ inl (inr e)
          | inr (inl w) ↦ inr (inl w)
          | inr (inr less) ↦
              inr (inr (omega (arith, less, step-way t s lives (omega (arith, ==→ne _ _ far)))))
        ]
      ]

  way-le : (p : Pc) → way p ≤ 7
  way-le Pc.outside = ground arith
  way-le p = ground arith

  -- Seven accesses are enough.
  pub arrives :
      {n : ℕ} (ts : List ℕ) (s : System)
      → Reach n ids s
      → Among n ts
      → (run ids ts s).alive ≡ true
      → Reach n ids (run ids ts s)
      → 7 ≤ turns_of u ts
      → Enters ids u ts s ⊎ ((i : Slot) × Waits ((run ids ts s).pc u) i)
  unfolding Nears
  arrives ts s r all up r' often = elim (nears ts s r all up) [
    | inl e ↦ inl e
    | inr (inl w) ↦ inr w
    | inr (inr less) ↦
        let there : way ((run ids ts s).pc u) ≡ 0 = omega (arith, less, way-le (s.pc u)) in
        elim (way-ends ((run ids ts s).pc u) there (lives-places r' up u)) [
          | inl h ↦ inl (Enters-end ts s h)
          | inr w ↦ inr w
        ]
  ]

  pub Enters-append : (ts us : List ℕ) (s : System) → Enters ids u ts s → Enters ids u (ts ++ us) s
  unfolding Enters
  Enters-append [] us s h = Enters-now us s h
  Enters-append (t ∷ ts) us s (inl h) = inl h
  Enters-append (t ∷ ts) us s (inr e) = inr (Enters-append ts us (step ids t s) e)

  pub append-Enters :
      (ts us : List ℕ) (s : System) → Enters ids u us (run ids ts s) → Enters ids u (ts ++ us) s
  unfolding Enters run
  append-Enters [] us s e = e
  append-Enters (t ∷ ts) us s e = inr (append-Enters ts us (step ids t s) e)
