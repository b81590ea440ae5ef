-- ===== src/Core/Thread/Identity.antt =====
-- The ids that `thread_id()` of src/core/thread.cpp hands out, over any sequence of its calls.
use native.Mathlib.Decide.{dec_lt}
use paracore.Base.{
  ℕ, ◌+◌, ◌≤◌, ◌<◌, ◌^◌, ◌≡◌, ◌≢◌, ◌⊎◌, inl, inr, refl, subst, List, [], ◌∷◌, ◌==◌, ==→eq, ==→ne,
  ==_ne, Bool-cases, sym, ◌∙◌, length, update, arith,
}
use paracore.Core.Thread.{Ids, init, thread_id, ask, ThreadIds}

-- No two threads share an id, and the ids in use are those from 1 below the counter.
pub record Inv (s : Ids) : Type 0 where
  pub counter : 0 < s.next_id
  pub below : (t : ℕ) → s.id t < s.next_id
  pub distinct : (t u : ℕ) → s.id t ≡ s.id u → s.id t ≢ 0 → t ≡ u
  pub dense : (v : ℕ) → 0 < v → v < s.next_id → (t : ℕ) × (s.id t ≡ v)

-- The thread with id `v` after thread `t` has got the next one.
still_dense :
    (s : Ids) (t : ℕ)
    → Inv s
    → s.id t ≡ 0
    → (v : ℕ) → 0 < v
    → v < s.next_id + 1
    → (u : ℕ) × (update s.id t s.next_id u ≡ v)
still_dense s t inv new v pos lt = elim (dec_lt v s.next_id) [
  | yes old ↦ let (u, e) = inv.dense v pos old in (u, ground arith)
  | no last ↦ (t, ground arith)
]

thread_id-Inv : (t : ℕ) (s : Ids) → s.next_id + 1 < 2 ^ 64 → Inv s → Inv (thread_id t s).1
unfolding thread_id
thread_id-Inv t s room inv = elim (Bool-cases (s.id t == 0)) [
  | inl new ↦ rw new (record {
    counter = omega arith;
    below = λ u. ground (arith, inv.below u);
    distinct = λ u v e named. ground (arith, inv.distinct u v, inv.below u, inv.below v);
    dense = λ v pos lt. still_dense s t inv (==→eq _ _ new) v pos (omega arith);
  })
  | inr old ↦ rw old inv
]

-- What a call leaves behind: at most one more id, and the caller has the one that it was given.
thread_id_lem :
    (t : ℕ) (s : Ids)
    → s.next_id + 1 < 2 ^ 64
    → 0 < s.next_id
    → let (v, s') = thread_id t s in
      (s'.next_id ≤ s.next_id + 1)
      × (0 < s'.next_id)
      × (s'.id t ≡ v)
      × (v ≢ 0)
      × ((u : ℕ) → s.id u ≢ 0 → s'.id u ≡ s.id u)
unfolding thread_id
thread_id_lem t s room pos = elim (Bool-cases (s.id t == 0)) [
  | inl new ↦ rw new (omega arith, omega arith, ground arith, omega arith, λ u named. ground arith)
  | inr old ↦ rw old (omega arith, omega arith, refl, ==→ne _ _ old, λ u named. refl)
]

ask-Inv : (ts : List ℕ) (s : Ids) → s.next_id + length ts < 2 ^ 64 → Inv s → Inv (ask ts s)
unfolding ask
ask-Inv [] s room inv = inv
ask-Inv (t ∷ ts) s room inv =
    let grown = (thread_id_lem t s (omega arith) inv.counter).0 in
    ask-Inv ts (thread_id t s).1 (omega arith) (thread_id-Inv t s (omega arith) inv)

-- Each call takes at most one id.
ask-next_id :
    (ts : List ℕ) (s : Ids)
    → s.next_id + length ts < 2 ^ 64
    → Inv s
    → (ask ts s).next_id ≤ s.next_id + length ts
unfolding ask
ask-next_id [] s room inv = omega arith
ask-next_id (t ∷ ts) s room inv =
    let grown = (thread_id_lem t s (omega arith) inv.counter).0 in
    omega
      (arith, ask-next_id ts (thread_id t s).1 (omega arith) (thread_id-Inv t s (omega arith) inv))

-- An id that a thread has is kept by all later calls.
pub ask_keeps :
    (ts : List ℕ) (s : Ids) (u : ℕ)
    → s.next_id + length ts < 2 ^ 64
    → Inv s
    → s.id u ≢ 0
    → (ask ts s).id u ≡ s.id u
unfolding ask
ask_keeps [] s u room inv named = refl
ask_keeps (t ∷ ts) s u room inv named =
    let (grown, _, _, _, kept) = thread_id_lem t s (omega arith) inv.counter in
    ask_keeps ts (thread_id t s).1 u (omega arith) (thread_id-Inv t s (omega arith) inv)
      (λ z. named (sym (kept u named) ∙ z))
    ∙ kept u named

-- The thread is among the callers.
abbrev pub Occurs : ℕ → List ℕ → Type 0
Occurs t [] = ⊥
Occurs t (u ∷ ts) = (t ≡ u) ⊎ Occurs t ts

Occurs-named :
    (ts : List ℕ) (s : Ids) (u : ℕ)
    → s.next_id + length ts < 2 ^ 64
    → Inv s
    → Occurs u ts
    → (ask ts s).id u ≢ 0
unfolding ask
Occurs-named [] s u room inv h = absurd h
Occurs-named (t ∷ ts) s u room inv h =
    let (grown, _, mine, named, kept) = thread_id_lem t s (omega arith) inv.counter in
    let after : Inv (thread_id t s).1 = thread_id-Inv t s (omega arith) inv in
    let held : (thread_id t s).1.id t ≢ 0 = λ z. named (sym mine ∙ z) in
    elim h [
      | inl e ↦
          subst (λ v. (ask ts (thread_id t s).1).id v ≢ 0) (sym e)
            (λ z. held (sym (ask_keeps ts (thread_id t s).1 t (omega arith) after held) ∙ z))
      | inr h' ↦ Occurs-named ts (thread_id t s).1 u (omega arith) after h'
    ]

init-Inv : Inv init
init-Inv = record {
  counter = omega arith;
  below = λ t. omega arith;
  distinct = λ t u e named. absurd (named refl);
  dense = λ v pos lt. absurd (omega arith);
}

-- In any interleaving of fewer than 2 ^ 64 - 1 calls of `thread_id()` no id is passed over: each
-- number from 1 up to the counter, which it does not reach, is the id of some thread.
pub thread_ids-dense :
    (ts : List ℕ)
    → length ts + 1 < 2 ^ 64
    → (v : ℕ) → 0 < v
    → v < (ask ts init).next_id
    → (t : ℕ) × ((ask ts init).id t ≡ v)
thread_ids-dense ts room = (ask-Inv ts init (omega arith) init-Inv).dense

-- A thread that is among the callers gets the same id from a call after any others, while there are
-- fewer than 2 ^ 64 - 1 calls in all.
pub thread_id-stable :
    (ts us : List ℕ) (t : ℕ)
    → length ts + length us + 1 < 2 ^ 64
    → Occurs t ts
    → (thread_id t (ask us (ask ts init))).0 ≡ (ask ts init).id t
unfolding thread_id
thread_id-stable ts us t room called = rw (kept, ==_ne ((ask ts init).id t) 0 named)
  where
    inv : Inv (ask ts init)
    inv = ask-Inv ts init (omega arith) init-Inv

    named : (ask ts init).id t ≢ 0
    named = Occurs-named ts init t (omega arith) init-Inv called

    kept : (ask us (ask ts init)).id t ≡ (ask ts init).id t
    kept =
        ask_keeps us (ask ts init) t (omega (arith, ask-next_id ts init (omega arith) init-Inv)) inv
          named

-- After fewer than 2 ^ 64 - 1 calls of `thread_id()`, by threads among which are all of 0 to `n -
-- 1`, the ids of these are what the locks assume: none is 0, and no two are the same.
pub ask-ThreadIds :
    (n : ℕ) (ts : List ℕ)
    → length ts + 1 < 2 ^ 64
    → ((t : ℕ) → t < n → Occurs t ts)
    → ThreadIds n (ask ts init).id
ask-ThreadIds n ts room all = record {
  named = λ t lt. Occurs-named ts init t (omega arith) init-Inv (all t lt);
  distinct = λ t u ht hu e.
      (ask-Inv ts init (omega arith) init-Inv).distinct t u e
        (Occurs-named ts init t (omega arith) init-Inv (all t ht));
}
