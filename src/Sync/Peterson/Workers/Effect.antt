-- ===== src/Sync/Peterson/Workers/Effect.antt =====
-- What one access of a worker does to how far it is.
use paracore.Base.{
  ℕ, ◌+◌, ◌*◌, ◌-◌, ◌<◌, ◌≡◌, ◌≢◌, ◌⊎◌, inl, inr, refl, ap, ◌∙◌, true, false, ◌==◌, Bool-cases,
  ==→eq, ==→ne, ==_ne, update, update_self, update_ne, arith,
}
use paracore.Sync.Peterson.{Caller, Members, Pc}
use paracore.Sync.Peterson.System
use paracore.Sync.Peterson.System.{System, turn, is_alive}
use paracore.Sync.Peterson.Waiting.{step-place, own_step}
use paracore.Sync.Peterson.Workers.{Body, Brief, Workers, is_outside, is_busy, step}
use paracore.Sync.Peterson.Workers.Cost.{
  cost, need, cost-turn, need-turn, cost-busy, is_outside-not_busy,
}

-- A process that lives after an access has not been aborted by it.
pub lives-turn :
    (ids : ℕ → ℕ) (t : ℕ) (s : System)
    → s.alive ≡ true
    → (System.step ids t s).alive ≡ true
    → is_alive (turn (ids t) (s.pc t) s.mem).1 ≡ true
unfolding System.step
lives-turn ids t s up e = rw up at e

pub outside-only : (p : Pc) → is_outside p ≡ true → p ≡ Pc.outside
outside-only Pc.outside e = refl
outside-only p e = ground arith

-- The three cases of an access, while the process lives.
module _ (B : Body) (ids : ℕ → ℕ) (t : ℕ) (s : Workers B) (up : (B.lock s.state).alive ≡ true) where
  pub idle : (B.lock s.state).pc t ≡ Pc.outside → s.left t ≡ 0 → step B ids t s ≡ s
  unfolding step
  idle e z = rw (up, e, z) refl

  pub goes_on :
      is_outside ((B.lock s.state).pc t) ≡ false
      → step B ids t s ≡ record { state = B.step ids t s.state; left = s.left }
  unfolding step
  goes_on o = rw (up, o) refl

  pub begins :
      (B.lock s.state).pc t ≡ Pc.outside
      → s.left t ≢ 0
      → step B ids t s
        ≡ record { state = B.step ids t s.state; left = update s.left t (s.left t - 1) }
  unfolding step
  begins e some = rw (up, e, ==_ne (s.left t) 0 some) refl

-- In a round: where the thread is, what it has left inside, and the memory, before and after.
record Onward (p : Pc) (r : ℕ) (m : Members) (p' : Pc) (r' : ℕ) (m' : Members) : Type 0 where
  nearer : (cost p' r' < cost p r) ⊎ ((cost p' r' ≡ cost p r) × (m' ≡ m))
  comes : 0 < need p m → (cost p' r' < cost p r) ⊎ ((0 < need p' m) × (need p' m < need p m))

module _ {B : Body} (brief : Brief B) where
  open brief use {rest}

  -- How many accesses a worker makes until it is through, if it does not wait.
  abbrev pub work : ℕ → Workers B → ℕ
  work t s = 17 * s.left t + cost ((B.lock s.state).pc t) (rest s.state t)

  abbrev pub needs : ℕ → Workers B → ℕ
  needs t s = need ((B.lock s.state).pc t) (B.lock s.state).mem

  pub record Worked (t : ℕ) (s s' : Workers B) : Type 0 where
    pub nearer :
        (work t s' < work t s)
        ⊎ ((work t s' ≡ work t s) × ((B.lock s'.state).mem ≡ (B.lock s.state).mem))
    pub comes :
        0 < work t s
        → 0 < needs t s
        → (work t s' < work t s)
          ⊎ ((0 < need ((B.lock s'.state).pc t) (B.lock s.state).mem)
              × (need ((B.lock s'.state).pc t) (B.lock s.state).mem < needs t s))
    pub others :
        (u : ℕ) → t ≢ u → (work u s' ≡ work u s) × ((B.lock s'.state).pc u ≡ (B.lock s.state).pc u)

  module _ (ids : ℕ → ℕ) (t : ℕ) (s : B.State) (up : (B.lock s).alive ≡ true)
      (up' : (B.lock (B.step ids t s)).alive ≡ true) where
    Goes : Type 0
    Goes =
        Onward ((B.lock s).pc t) (rest s t) (B.lock s).mem ((B.lock (B.step ids t s)).pc t)
          (rest (B.step ids t s) t) (B.lock (B.step ids t s)).mem

    in_round : is_outside ((B.lock s).pc t) ≡ false → Goes
    unfolding Goes
    in_round o = elim (Bool-cases (is_busy ((B.lock s).pc t) (rest s t))) [
      | inl busy ↦
          let (same, less) = brief.inner ids t s up busy in
          let nearer = cost-busy ((B.lock s).pc t) (rest s t) (rest (B.step ids t s) t) busy less in
          rw same (record { nearer = inl nearer; comes = λ h. inl nearer })
      | inr free ↦
          let (steps, small) = brief.code ids t s up free in
          let (place, memory) = own_step ids t (B.lock s) up in
          let lives : is_alive (turn (ids t) ((B.lock s).pc t) (B.lock s).mem).1 ≡ true =
            lives-turn ids t (B.lock s) up (rw steps at up') in
          rw (steps, place, memory)
            (record {
              nearer =
                  cost-turn (ids t) (B.lock s).mem (rest s t) (rest (B.step ids t s) t) small
                    ((B.lock s).pc t) free o lives;
              comes =
                  need-turn (ids t) (B.lock s).mem (rest s t) (rest (B.step ids t s) t) small
                    ((B.lock s).pc t) free o lives;
            })
    ]

    -- The other threads stay where they are.
    stays : (u : ℕ) → t ≢ u → ((B.lock (B.step ids t s)).pc u ≡ (B.lock s).pc u)
    stays u ne = elim (Bool-cases (is_busy ((B.lock s).pc t) (rest s t))) [
      | inl busy ↦ ap (λ (l : System). l.pc u) (brief.inner ids t s up busy).0
      | inr free ↦
          ap (λ (l : System). l.pc u) (brief.code ids t s up free).0
          ∙ step-place ids u (B.lock s) t ne
    ]

  module _ (ids : ℕ → ℕ) (t : ℕ) (s : Workers B) (up : (B.lock s.state).alive ≡ true) where
    idle_step : (B.lock s.state).pc t ≡ Pc.outside → s.left t ≡ 0 → Worked t s (step B ids t s)
    idle_step e z = rw (idle B ids t s up e z) (record {
      nearer = inr (refl, refl);
      comes = λ h. ground (arith, e, z);
      others = λ u ne. (refl, refl);
    })

    module _ (up' : (B.lock (step B ids t s).state).alive ≡ true) where
      round_step : is_outside ((B.lock s.state).pc t) ≡ false → Worked t s (step B ids t s)
      unfolding Goes
      round_step o =
          let on : Goes ids t s.state up (rw (goes_on B ids t s up o) at up') =
            in_round ids t s.state up (rw (goes_on B ids t s up o) at up') o in
          rw (goes_on B ids t s up o) (record {
            nearer = elim on.nearer [
              | inl less ↦ inl (omega (arith, less))
              | inr (same, memory) ↦ inr (ap (λ n. 17 * s.left t + n) same, memory)
            ];
            comes = λ h can. elim (on.comes can) [
              | inl less ↦ inl (omega (arith, less))
              | inr near ↦ inr near
            ];
            others = λ u ne.
                let place = stays ids t s.state up (rw (goes_on B ids t s up o) at up') u ne in
                (rw (place, brief.others ids t u s.state ne) refl, place);
          })

      first_step : (B.lock s.state).pc t ≡ Pc.outside → s.left t ≢ 0 → Worked t s (step B ids t s)
      first_step e some =
          let free = is_outside-not_busy ((B.lock s.state).pc t) (rest s.state t) (rw e refl) in
          let there : (B.lock (B.step ids t s.state)).pc t ≡ Pc.claim_first Caller.lock =
            ap (λ (l : System). l.pc t) (brief.code ids t s.state up free).0
            ∙ (own_step ids t (B.lock s.state) up).0
            ∙ ap (λ p. (turn (ids t) p (B.lock s.state).mem).1) e in
          let less : (17 * update s.left t (s.left t - 1) t
                + cost ((B.lock (B.step ids t s.state)).pc t) (rest (B.step ids t s.state) t))
              < work t s =
            rw (there, e, update_self s.left t (s.left t - 1)) (omega (arith, some)) in
          rw (begins B ids t s up e some) (record {
            nearer = inl less;
            comes = λ h can. inl less;
            others = λ u ne.
                let place = stays ids t s.state up (rw (begins B ids t s up e some) at up') u ne in
                (
                  rw
                      (
                        place,
                        brief.others ids t u s.state ne,
                        update_ne s.left t u (s.left t - 1) ne,
                      )
                      refl,
                  place,
                );
          })

  -- An access of a worker, while the process lives.
  pub step-Worked :
      (ids : ℕ → ℕ) (t : ℕ) (s : Workers B)
      → (B.lock s.state).alive ≡ true
      → (B.lock (step B ids t s).state).alive ≡ true
      → Worked t s (step B ids t s)
  step-Worked ids t s up up' = elim (Bool-cases (is_outside ((B.lock s.state).pc t))) [
    | inr o ↦ round_step ids t s up up' o
    | inl out ↦
        let e : (B.lock s.state).pc t ≡ Pc.outside = outside-only ((B.lock s.state).pc t) out in
        elim (Bool-cases (s.left t == 0)) [
          | inl none ↦ idle_step ids t s up e (==→eq _ _ none)
          | inr some ↦ first_step ids t s up up' e (==→ne _ _ some)
        ]
  ]
