-- ===== src/Sync/Peterson/Owned.antt =====
-- PetersonLock beside the contract that Mutex keeps: a lock with an owner, or none.
use paracore.Base.{
  ℕ, ◌<◌, ◌≡◌, ◌≢◌, inl, inr, refl, sym, ap, subst, ◌∙◌, true, false, Bool-cases, ==→ne, ==→eq,
  ==_refl, ◌==◌, Option, none, some, List, [], ◌∷◌, ◌++◌, if◌then◌else◌, Among,
}
use paracore.Core.Status.{Errno}
use paracore.Core.Outcome.{Outcome}
use paracore.Core.Thread.{ThreadIds}
use paracore.Core.Mutex.Trace
use paracore.Core.Mutex.Trace.{owned}
use paracore.Sync.Lockable.{Call}
use paracore.Sync.Peterson.{Pc}
use paracore.Sync.Peterson.System.{System, step, init, Reach, start, later}
use paracore.Sync.Peterson.Safety.{mutual_exclusion}
use paracore.Sync.Peterson.Waiting.{step-place, run}
use paracore.Sync.Peterson.Bypass.{holds}
use paracore.Sync.Peterson.Bypass.Turns.{holds-Holds}

-- What a step of thread `t` from `p` to `q` completes: a `lock()`, an `unlock()`, or nothing.
abbrev pub event : ℕ → Pc → Pc → List (ℕ × Call)
event t p q =
    if holds p
    then (if holds q then [] else ((t, Call.unlock) ∷ []))
    else (if holds q then ((t, Call.lock) ∷ []) else [])

-- The calls that the threads complete, while they make one access each in this order.
unfoldable pub events : (ids : ℕ → ℕ) → List ℕ → System → List (ℕ × Call)
events ids [] s = []
events ids (t ∷ ts) s = event t (s.pc t) ((step ids t s).pc t) ++ events ids ts (step ids t s)

-- The owner, or none, is the thread that holds the lock.
abbrev pub Owner : (n : ℕ) → (pc : ℕ → Pc) → Option ℕ → Type 0
Owner n pc none = (t : ℕ) → t < n → holds (pc t) ≡ false
Owner n pc (some t) = (t < n) × (holds (pc t) ≡ true)

alone :
    {n : ℕ} {ids : ℕ → ℕ} {s : System}
    → ThreadIds n ids
    → Reach n ids s
    → (t u : ℕ) → t < n
    → u < n
    → holds (s.pc t) ≡ true
    → holds (s.pc u) ≡ true
    → t ≡ u
alone {s} known r t u ht hu e f =
    mutual_exclusion known r t u ht hu (holds-Holds (s.pc t) e) (holds-Holds (s.pc u) f)

module _ (os : Errno) {n : ℕ} {ids : ℕ → ℕ} (known : ThreadIds n ids) where
  -- Thread `t` of `s` steps to `s'`, which its other threads do not notice.
  record Beside (t : ℕ) (s s' : System) : Type 0 where
    here : t < n
    before : Reach n ids s
    after : Reach n ids s'
    others : (u : ℕ) → t ≢ u → s'.pc u ≡ s.pc u

  Follows : (t : ℕ) (s s' : System) (o : Option ℕ) (rest : List (ℕ × Call)) → Type 0
  Follows t s s' o rest =
      (o' : Option ℕ) × (Trace.run (owned os) (event t (s.pc t) (s'.pc t) ++ rest) o
        ≡ Trace.run (owned os) rest o')
      × Owner n s'.pc o'

  enters :
      (t : ℕ) (s s' : System) (rest : List (ℕ × Call))
      → Beside t s s'
      → holds (s.pc t) ≡ false
      → holds (s'.pc t) ≡ true
      → (o : Option ℕ) → Owner n s.pc o
      → Follows t s s' o rest
  unfolding Follows Trace.run
  enters t s s' rest b e f none w = (some t, rw (e, f) refl, (b.here, f))
  enters t s s' rest b e f (some u) w = absurd (elim (Bool-cases (t == u)) [
    | inl same ↦
        let both : true ≡ false =
          sym (subst (λ (v : ℕ). holds (s.pc v) ≡ true) (sym (==→eq t u same)) w.1) ∙ e in
        cc
    | inr apart ↦
        ==→ne t u apart
          (alone known b.after t u b.here w.0 f (ap holds (b.others u (==→ne t u apart)) ∙ w.1))
  ])

  leaves :
      (t : ℕ) (s s' : System) (rest : List (ℕ × Call))
      → Beside t s s'
      → holds (s.pc t) ≡ true
      → holds (s'.pc t) ≡ false
      → (o : Option ℕ) → Owner n s.pc o
      → Follows t s s' o rest
  unfolding Follows Trace.run
  leaves t s s' rest b e f none w = let both : true ≡ false = sym e ∙ w t b.here in cc
  leaves t s s' rest b e f (some u) w =
      let mine : u ≡ t = alone known b.before u t w.0 b.here w.1 e in
      (none, rw (e, f, mine, ==_refl t) refl, free)
    where
      free : (v : ℕ) → v < n → holds (s'.pc v) ≡ false
      free v hv = elim (Bool-cases (t == v)) [
        | inl same ↦ subst (λ (v : ℕ). holds (s'.pc v) ≡ false) (==→eq t v same) f
        | inr apart ↦ elim (Bool-cases (holds (s.pc v))) [
          | inl held ↦ absurd (==→ne t v apart (alone known b.before t v b.here hv e held))
          | inr out ↦ ap holds (b.others v (==→ne t v apart)) ∙ out
        ]
      ]

  kept :
      (t : ℕ) (s s' : System)
      → Beside t s s'
      → holds (s'.pc t) ≡ holds (s.pc t)
      → (u : ℕ) → holds (s'.pc u) ≡ holds (s.pc u)
  kept t s s' b e u = elim (Bool-cases (t == u)) [
    | inl same ↦ subst (λ (v : ℕ). holds (s'.pc v) ≡ holds (s.pc v)) (==→eq t u same) e
    | inr apart ↦ ap holds (b.others u (==→ne t u apart))
  ]

  quiet :
      (t : ℕ) (p q : Pc) (rest : List (ℕ × Call)) → holds q ≡ holds p → event t p q ++ rest ≡ rest
  quiet t p q rest e = elim (Bool-cases (holds p)) [
    | inl held ↦ rw (held, e ∙ held) refl
    | inr out ↦ rw (out, e ∙ out) refl
  ]

  stays :
      (t : ℕ) (s s' : System) (rest : List (ℕ × Call))
      → Beside t s s'
      → holds (s'.pc t) ≡ holds (s.pc t)
      → (o : Option ℕ) → Owner n s.pc o
      → Follows t s s' o rest
  unfolding Follows
  stays t s s' rest b e none w = (
    none,
    ap (λ ks. Trace.run (owned os) ks none) (quiet t (s.pc t) (s'.pc t) rest e),
    λ u hu. kept t s s' b e u ∙ w u hu,
  )
  stays t s s' rest b e (some u) w = (
    some u,
    ap (λ ks. Trace.run (owned os) ks (some u)) (quiet t (s.pc t) (s'.pc t) rest e),
    (w.0, kept t s s' b e u ∙ w.1),
  )

  follows :
      (t : ℕ) (s s' : System) (rest : List (ℕ × Call))
      → Beside t s s'
      → (o : Option ℕ) → Owner n s.pc o
      → Follows t s s' o rest
  follows t s s' rest b o w = elim (Bool-cases (holds (s.pc t))) [
    | inl e ↦ elim (Bool-cases (holds (s'.pc t))) [
      | inl f ↦ stays t s s' rest b (f ∙ sym e) o w
      | inr f ↦ leaves t s s' rest b e f o w
    ]
    | inr e ↦ elim (Bool-cases (holds (s'.pc t))) [
      | inl f ↦ enters t s s' rest b e f o w
      | inr f ↦ stays t s s' rest b (f ∙ sym e) o w
    ]
  ]

  -- From any reachable state and its owner, the calls that a schedule completes are calls of a lock with
  -- that owner, which returns from all of them.
  events-owned :
      (ts : List ℕ) (s : System)
      → Reach n ids s
      → Among n ts
      → (o : Option ℕ) → Owner n s.pc o
      → (o' : Option ℕ) × (Trace.run (owned os) (events ids ts s) o ≡ Outcome.returns ([], o'))
        × Owner n (run ids ts s).pc o'
  unfolding events run Trace.run Follows
  events-owned [] s r all o w = (o, refl, w)
  events-owned (t ∷ ts) s r all o w =
      let s' = step ids t s in
      let after : Reach n ids s' = later t all.0 r in
      let beside : Beside t s s' = record {
        here = all.0;
        before = r;
        after = after;
        others = λ u ne. step-place ids u s t ne;
      } in
      let (o', e, w') = follows t s s' (events ids ts s') beside o w in
      let (o'', e', w'') = events-owned ts s' after all.1 o' w' in (o'', e ∙ e', w'')

-- PetersonLock refines the contract that Mutex keeps: in any schedule of its threads from a new
-- lock, the calls of `lock()` and `unlock()` in the order in which they complete are calls of a
-- lock with an owner that never blocks and never aborts, and its owner at the end, if any, is a
-- thread that holds the PetersonLock, which nobody does if there is none. The ids are not 0 and
-- differ.
pub schedule-owned :
    (os : Errno) {n : ℕ} {ids : ℕ → ℕ} (ts : List ℕ)
    → ThreadIds n ids
    → Among n ts
    → (o : Option ℕ) × (Trace.run (owned os) (events ids ts init) none ≡ Outcome.returns ([], o))
      × Owner n (run ids ts init).pc o
schedule-owned os ts known all = events-owned os known ts init start all none (λ t h. refl)
