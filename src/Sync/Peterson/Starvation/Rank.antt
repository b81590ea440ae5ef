-- ===== src/Sync/Peterson/Starvation/Rank.antt =====
-- The owner of the other slot comes to store itself in `victim_`.
use paracore.Base.{
  ℕ, ◌+◌, ◌≤◌, ◌<◌, ◌≡◌, ◌≢◌, ◌⊎◌, inl, inr, sym, ap, subst, ◌∙◌, List, [], ◌∷◌, true, ◌==◌,
  Bool-cases, ==→eq, ==→ne, Among, arith,
}
use paracore.Core.Thread.{ThreadIds}
use paracore.Sync.Peterson.{Slot, other, index, flag, victim, owner, Members, Pc}
use paracore.Sync.Peterson.System.{System, turn, step, Reach, later}
use paracore.Sync.Peterson.Invariant.{Local, Waits, Inv, Reach-Inv, Waits-Raised}
use paracore.Sync.Peterson.Safety.{owner_kept}
use paracore.Sync.Peterson.Waiting.{
  run, Waiting, step-Waiting, step-place, step_alive, run_alive, own_step,
}
use paracore.Sync.Peterson.Bypass.{KeepsWaiting}
use paracore.Sync.Peterson.Bypass.Turns.{Waits-turn}
use paracore.Sync.Peterson.Bypass.Behind.{step-dead, not_owner}
use paracore.Sync.Peterson.Bypass.Once.{KeepsWaiting-Waits}
use paracore.Sync.Peterson.Starvation.{turns_of, rank}

module _ (me : ℕ) (m : Members) (named : me ≢ 0) where
  rank-turn :
      (p : Pc) (i : Slot)
      → Local m me p
      → m (owner (other i)) ≡ me
      → m (owner i) ≢ me
      → m (flag i) ≡ 1
      → m victim ≡ index i
      → ((turn me p m).0 victim ≢ index i) ⊎ (rank (turn me p m).1 < rank p)
  rank-turn Pc.outside Slot.first h mine theirs up v = ground arith
  rank-turn p Slot.first h mine theirs up v = ground arith
  rank-turn p Slot.second h mine theirs up v = ground arith

-- Once `u` waits and is not the victim, that stays so while it waits.
module _ {n : ℕ} {ids : ℕ → ℕ} (known : ThreadIds n ids) (u : ℕ) (hu : u < n) (i : Slot) where
  step-kept :
      (s : System) (t : ℕ)
      → t < n
      → Waiting n ids u i s
      → Waits ((step ids t s).pc u) i
      → Waiting n ids u i (step ids t s)
  step-kept s t ht w next = elim (Bool-cases (t == u)) [
    | inl own ↦ record {
      reach = later t ht w.reach;
      waits = next;
      not_victim = λ e. w.not_victim (sym (same (==→eq t u own)) ∙ e);
    }
    | inr apart ↦ step-Waiting s known hu t ht (==→ne t u apart) w
  ]
    where
      same : t ≡ u → (step ids t s).mem victim ≡ s.mem victim
      same e = elim (Bool-cases s.alive) [
        | inl up ↦
            ap (λ (m : Members). m victim)
              ((own_step ids t s up).1
                ∙ Waits-turn (ids t) (s.pc t) s.mem i
                    (subst (λ k. Waits (s.pc k) i) (sym e) w.waits))
        | inr down ↦ ap (λ (z : System). z.mem victim) (step-dead ids t s down)
      ]

  run-kept :
      (ts : List ℕ) (s : System)
      → Among n ts
      → Waiting n ids u i s
      → KeepsWaiting ids u i ts s
      → Waiting n ids u i (run ids ts s)
  unfolding run KeepsWaiting
  run-kept [] s all w keeps = w
  run-kept (t ∷ ts) s all w keeps =
      run-kept ts (step ids t s) all.1
        (step-kept s t all.0 w (KeepsWaiting-Waits ids u i ts (step ids t s) keeps.1)) keeps.1

  module _ (v : ℕ) (hv : v < n) (apart : v ≢ u) where
    -- An access of `v` takes it on, or makes `u` no longer the victim.
    own-rank :
        (s : System)
        → Reach n ids s
        → s.alive ≡ true
        → Waits (s.pc u) i
        → s.mem (owner (other i)) ≡ ids v
        → s.mem victim ≡ index i
        → ((step ids v s).mem victim ≢ index i) ⊎ (rank ((step ids v s).pc v) < rank (s.pc v))
    own-rank s r up w mine is =
        let inv : Inv n ids s.mem s.pc = Reach-Inv known r in
        let (own, flag_up) = Waits-Raised s.mem (ids u) (s.pc u) i (inv.own u hu) w in
        let (place, members) = own_step ids v s up in
        rw (place, members)
          (rank-turn (ids v) s.mem (known.named v hv) (s.pc v) i (inv.own v hv) mine
            (not_owner s known r u v hu hv apart i w) flag_up is)

    Nears : List ℕ → System → System → Type 0
    Nears ts s s' = (s'.mem victim ≢ index i) ⊎ (turns_of v ts + rank (s'.pc v) ≤ rank (s.pc v))

    -- The same for an access of any thread, while `u` is the victim.
    step-rank :
        (t : ℕ) (s : System)
        → Reach n ids s
        → t < n
        → s.alive ≡ true
        → Waits (s.pc u) i
        → s.mem (owner (other i)) ≡ ids v
        → s.mem victim ≡ index i
        → Nears (t ∷ []) s (step ids t s)
    unfolding Nears
    step-rank t s r ht up w mine is = elim (Bool-cases (t == v)) [
      | inr apart ↦ inr (rw (step-place ids v s t (==→ne t v apart), apart) (omega arith))
      | inl own ↦
          subst (λ k. Nears (t ∷ []) s (step ids k s)) (sym (==→eq t v own))
            (elim (own-rank s r up w mine is) [
              | inl gone ↦ inl gone
              | inr less ↦ inr (rw own (omega arith))
            ])
    ]

    -- In a schedule through which `u` waits, `v` makes no more accesses than its place allows, unless
    -- `u` ceases to be the victim.
    pub turns-rank :
        (ts : List ℕ) (s : System)
        → Reach n ids s
        → Among n ts
        → KeepsWaiting ids u i ts s
        → s.mem (owner (other i)) ≡ ids v
        → (run ids ts s).alive ≡ true
        → ((run ids ts s).mem victim ≢ index i)
          ⊎ (turns_of v ts + rank ((run ids ts s).pc v) ≤ rank (s.pc v))
    unfolding run KeepsWaiting Nears
    turns-rank [] s r all keeps mine up = inr (omega arith)
    turns-rank (t ∷ ts) s r all keeps mine up =
        let next : Waits ((step ids t s).pc u) i =
          KeepsWaiting-Waits ids u i ts (step ids t s) keeps.1 in
        let lives : s.alive ≡ true = step_alive ids t s (run_alive ids ts (step ids t s) up) in
        let rest : Nears ts (step ids t s) (run ids ts (step ids t s)) =
          turns-rank ts (step ids t s) (later t all.0 r) all.1 keeps.1
            (owner_kept s known r t all.0 (other i) (λ e. known.named v hv (sym mine ∙ e)) ∙ mine)
            up in
        elim (Bool-cases (s.mem victim == index i)) [
          | inr gone ↦
              inl
                (run-kept (t ∷ ts) s all
                  (record { reach = r; waits = keeps.0; not_victim = ==→ne _ _ gone })
                  keeps).not_victim
          | inl is ↦ elim (step-rank t s r all.0 lives keeps.0 mine (==→eq _ _ is)) [
            | inl gone ↦
                inl
                  (run-kept ts (step ids t s) all.1
                    (record { reach = later t all.0 r; waits = next; not_victim = gone })
                    keeps.1).not_victim
            | inr less ↦ elim rest [
              | inl gone ↦ inl gone
              | inr most ↦ inr (omega (arith, less, most))
            ]
          ]
        ]
