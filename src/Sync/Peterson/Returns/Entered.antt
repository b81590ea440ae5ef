-- ===== src/Sync/Peterson/Returns/Entered.antt =====
-- Two threads that share a PetersonLock: `lock()` returns.
use paracore.Base.{
  ℕ, ◌≤◌, ◌<◌, ◌≡◌, ◌≢◌, ◌⊎◌, inl, inr, sym, ◌∙◌, List, [], ◌∷◌, ◌++◌, true, Among, arith,
}
use paracore.Core.Thread.{ThreadIds}
use paracore.Sync.Peterson.{Slot, first, second, other, owner, Members}
use paracore.Sync.Peterson.System.{System, step, Reach, later}
use paracore.Sync.Peterson.Invariant.{Waits, Raised, Reach-Inv, Holds-Raised, Waits-Raised}
use paracore.Sync.Peterson.Safety.{owner_kept}
use paracore.Sync.Peterson.Waiting.{run, run_alive}
use paracore.Sync.Peterson.Aborts.{two_alive}
use paracore.Sync.Peterson.Starvation.{turns_of}
use paracore.Sync.Peterson.Starvation.Entry.{run-Reach, starvation_free}
use paracore.Sync.Peterson.Returns.{Enters}
use paracore.Sync.Peterson.Returns.Arrival.{
  keeps_or_comes, keeps-end, arrives, Enters-append, append-Enters,
}

-- A slot that is another's than `i` is the other slot.
other_slot :
    (m : Members) (a b : ℕ) (i j : Slot)
    → m (owner i) ≡ a
    → m (owner j) ≡ b
    → a ≢ b
    → m (owner (other i)) ≡ b
other_slot m a b Slot.first Slot.first e f ne = ground arith
other_slot m a b i j e f ne = ground arith

some_slot :
    (m : Members) (me : ℕ)
    → Raised m me first ⊎ Raised m me second
    → (i : Slot) × (m (owner i) ≡ me)
some_slot m me (inl h) = (first, h.0)
some_slot m me (inr h) = (second, h.0)

module _ {n : ℕ} {ids : ℕ → ℕ} (known : ThreadIds n ids) (u : ℕ) (hu : u < n) where
  run-owner :
      (ts : List ℕ) (s : System)
      → Reach n ids s
      → Among n ts
      → (i : Slot) → s.mem (owner i) ≡ ids u
      → (run ids ts s).mem (owner i) ≡ ids u
  unfolding run
  run-owner [] s r all i mine = mine
  run-owner (t ∷ ts) s r all i mine =
      run-owner ts (step ids t s) (later t all.0 r) all.1 i
        (owner_kept s known r t all.0 i (λ e. known.named u hu (sym mine ∙ e)) ∙ mine)

  -- Who has held the lock has a slot from then on.
  Enters-owner :
      (ts : List ℕ) (s : System)
      → Reach n ids s
      → Among n ts
      → Enters ids u ts s
      → (i : Slot) × ((run ids ts s).mem (owner i) ≡ ids u)
  unfolding Enters run
  Enters-owner [] s r all h =
      some_slot s.mem (ids u) (Holds-Raised s.mem (ids u) (s.pc u) ((Reach-Inv known r).own u hu) h)
  Enters-owner (t ∷ ts) s r all (inr e) = Enters-owner ts (step ids t s) (later t all.0 r) all.1 e
  Enters-owner (t ∷ ts) s r all (inl h) =
      let (i, mine) =
        some_slot s.mem (ids u)
          (Holds-Raised s.mem (ids u) (s.pc u) ((Reach-Inv known r).own u hu) h) in
      (i, run-owner (t ∷ ts) s r all i mine)

  Waits-owner :
      (s : System) → Reach n ids s → (i : Slot) → Waits (s.pc u) i → s.mem (owner i) ≡ ids u
  Waits-owner s r i w = (Waits-Raised s.mem (ids u) (s.pc u) i ((Reach-Inv known r).own u hu) w).0

  -- Who has made seven accesses has a slot.
  arrives-owner :
      (ts : List ℕ) (s : System)
      → Reach n ids s
      → Among n ts
      → (run ids ts s).alive ≡ true
      → 7 ≤ turns_of u ts
      → (i : Slot) × ((run ids ts s).mem (owner i) ≡ ids u)
  arrives-owner ts s r all up often =
      let r' = run-Reach ts s all r in
      elim (arrives ids u ts s r all up r' often) [
        | inl e ↦ Enters-owner ts s r all e
        | inr (i, w) ↦ (i, Waits-owner (run ids ts s) r' i w)
      ]

module _ {n : ℕ} {ids : ℕ → ℕ} (known : ThreadIds n ids) (u v : ℕ) (hu : u < n) (hv : v < n)
    (ne : u ≢ v) where
  -- A thread that waits enters once the owner of the other slot has gone on and then it has itself.
  waiter_returns :
      (us ws : List ℕ) (s : System)
      → Reach n ids s
      → Among n us
      → Among n ws
      → (run ids ws (run ids us s)).alive ≡ true
      → (i : Slot) → Waits (s.pc u) i
      → s.mem (owner (other i)) ≡ ids v
      → 15 ≤ turns_of v us
      → 2 ≤ turns_of u ws
      → Enters ids u (us ++ ws) s
  waiter_returns us ws s r b c up i w mine v_on u_on = elim (keeps_or_comes ids u us s i w) [
    | inl e ↦ Enters-append ids u us ws s e
    | inr keeps ↦ elim (keeps_or_comes ids u ws (run ids us s) i (keeps-end ids u us s i keeps)) [
      | inl e ↦ append-Enters ids u us ws s e
      | inr keeps' ↦ absurd (
          starvation_free s known r u v hu hv (λ e. ne (sym e)) i mine us ws b c v_on u_on up keeps
            keeps')
    ]
  ]

  pub enters :
      (ts us ws : List ℕ) (s : System)
      → Reach n ids s
      → Among n ts
      → Among n us
      → Among n ws
      → (run ids ws (run ids us (run ids ts s))).alive ≡ true
      → 7 ≤ turns_of u ts
      → 7 ≤ turns_of v ts
      → 15 ≤ turns_of v us
      → 2 ≤ turns_of u ws
      → Enters ids u (ts ++ (us ++ ws)) s
  enters ts us ws s r a b c up u_there v_there v_on u_on =
      let mid : System = run ids ts s in
      let r' : Reach n ids mid = run-Reach ts s a r in
      let lives : mid.alive ≡ true = run_alive ids us mid (run_alive ids ws (run ids us mid) up) in
      elim (arrives ids u ts s r a lives r' u_there) [
        | inl e ↦ Enters-append ids u ts (us ++ ws) s e
        | inr (i, w) ↦
            let (j, theirs) = arrives-owner known v hv ts s r a lives v_there in
            let mine : mid.mem (owner (other i)) ≡ ids v =
              other_slot mid.mem (ids u) (ids v) i j (Waits-owner known u hu mid r' i w) theirs
                (λ e. ne (known.distinct u v hu hv e)) in
            append-Enters ids u ts (us ++ ws) s
              (waiter_returns us ws mid r' b c up i w mine v_on u_on)
      ]

-- Every call of `lock()` returns: when two threads share a PetersonLock, whose ids are not 0 and
-- differ, then in any order of their accesses from a reachable state, once each has made 7
-- accesses, then the other has made 15 and then `u` two, thread `u` has held the lock at some
-- moment of that.
pub lock_returns :
    {ids : ℕ → ℕ} (s : System)
    → ThreadIds 2 ids
    → Reach 2 ids s
    → (u v : ℕ) → u < 2
    → v < 2
    → u ≢ v
    → (ts us ws : List ℕ) → Among 2 ts
    → Among 2 us
    → Among 2 ws
    → 7 ≤ turns_of u ts
    → 7 ≤ turns_of v ts
    → 15 ≤ turns_of v us
    → 2 ≤ turns_of u ws
    → Enters ids u (ts ++ (us ++ ws)) s
lock_returns {ids} s known r u v hu hv ne ts us ws a b c u_there v_there v_on u_on =
    let last = run-Reach ws _ c (run-Reach us _ b (run-Reach ts s a r)) in
    enters known u v hu hv ne ts us ws s r a b c (two_alive known last (omega arith)) u_there
      v_there v_on u_on
