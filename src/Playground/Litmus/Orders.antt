-- ===== src/Playground/Litmus/Orders.antt =====
-- What the two litmus programs can count, by the ordering of their stores.
use mathlib.Core.Path.{subst₂}
use paracore.Base.{
  ℕ, zero, suc, ◌≡◌, ◌≢◌, ◌⊎◌, refl, sym, ap, subst, List, [], ◌∷◌, ◌==◌, ◌&&◌, false, length,
  arith,
}
use paracore.Sync.Memory.{Order}
use paracore.Playground.Litmus.{
  Cell, Thread, Place, State, step, release_store, Reach, start, later, flushed, Loaded, run_sb,
}

-- An iteration can end with these two values.
abbrev pub Ends : Order → Loaded → Type 0
Ends o l =
    (s : State) × Reach o s × (s.first.place ≡ Place.done l.r1) × (s.second.place ≡ Place.done l.r2)

-- The variable of a thread that has stored is 1 from then on.
abbrev Stored : State → Place → Cell → Type 0
Stored s Place.before_store c = Unit
Stored s _ c = s.mem c ≡ 1

-- Of two threads that are done, one has loaded what is not 0.
abbrev Seen : Place → Place → Type 0
Seen (Place.done r1) (Place.done r2) = (r1 ≢ 0) ⊎ (r2 ≢ 0)
Seen p q = Unit

record Inv (s : State) : Type 0 where
  drained : (s.first.pending ≡ []) × (s.second.pending ≡ [])
  stored : Stored s s.first.place Cell.x × Stored s s.second.place Cell.y
  seen : Seen s.first.place s.second.place

abbrev state : (Cell → ℕ) → Place → Place → State
state m p q = record {
  mem = m;
  first = record { pending = []; place = p };
  second = record { pending = []; place = q };
}

step_state :
    (t : Thread) (m : Cell → ℕ) (p q : Place)
    → Inv (state m p q)
    → Inv (step Order.seq_cst t (state m p q))
unfolding step
step_state Thread.t1 m Place.before_store Place.before_store i = ground arith
step_state t m p q i = ground arith

flush_state :
    (t : Thread) (m : Cell → ℕ) (p q : Place) → release_store t (state m p q) ≡ state m p q
unfolding release_store
flush_state Thread.t1 m p q = refl
flush_state Thread.t2 m p q = refl

-- With both buffers empty a state is its memory and its places.
rebuilt : (s : State) → Inv s → state s.mem s.first.place s.second.place ≡ s
rebuilt s i = λ k. record {
  mem = s.mem;
  first = record { pending = sym i.drained.0 k; place = s.first.place };
  second = record { pending = sym i.drained.1 k; place = s.second.place };
}

state-Inv : (s : State) → Inv s → Inv (state s.mem s.first.place s.second.place)
state-Inv s i = record { drained = (refl, refl); stored = i.stored; seen = i.seen }

Reach-Inv : {s : State} → Reach Order.seq_cst s → Inv s
Reach-Inv start = record { drained = (refl, refl); stored = (tt, tt); seen = tt }
Reach-Inv (later {s} t r) =
    let i : Inv s = Reach-Inv r in
    subst (λ u. Inv (step Order.seq_cst t u)) (rebuilt s i)
      (step_state t s.mem s.first.place s.second.place (state-Inv s i))
Reach-Inv (flushed {s} t r) =
    let i : Inv s = Reach-Inv r in
    subst (λ u. Inv (release_store t u)) (rebuilt s i)
      (subst Inv (sym (flush_state t s.mem s.first.place s.second.place)) (state-Inv s i))

-- Every iteration can end with the values that it has.
abbrev pub AllEnd : Order → List Loaded → Type 0
AllEnd o [] = Unit
AllEnd o (l ∷ ls) = Ends o l × AllEnd o ls

not_both : (l : Loaded) → Ends Order.seq_cst l → ((l.r1 == 0) && (l.r2 == 0)) ≡ false
not_both l (s, r, e, f) = ground (arith, seen)
  where
    seen : Seen (Place.done l.r1) (Place.done l.r2)
    seen = subst₂ Seen e f (Reach-Inv r).seen

-- If each iteration of the store-buffering program ends with values that its two threads can load
-- with `seq_cst` stores, the program counts 0, however many iterations it makes.
pub seq_cst_counts_none : (ls : List Loaded) → AllEnd Order.seq_cst ls → run_sb ls ≡ 0
unfolding run_sb
seq_cst_counts_none [] h = refl
seq_cst_counts_none (l ∷ ls) h = rw (not_both l h.0, seq_cst_counts_none ls h.1)

abbrev both_zero : Loaded
both_zero = record { r1 = 0; r2 = 0 }

-- Each thread stores, and loads before the other's store has left its buffer.
buffered : (o : Order) → o ≢ Order.seq_cst → Ends o both_zero
unfolding step
buffered Order.relaxed ne =
    (_, later Thread.t2 (later Thread.t1 (later Thread.t2 (later Thread.t1 start))), refl, refl)
buffered Order.release ne =
    (_, later Thread.t2 (later Thread.t1 (later Thread.t2 (later Thread.t1 start))), refl, refl)
buffered Order.seq_cst ne = absurd (ne refl)

-- With stores that are not `seq_cst`, for each `n` there are `n` iterations of the store-buffering
-- program, each with values that its two threads can load, of which the program counts `n`.
pub weak_counts_all :
    (o : Order)
    → o ≢ Order.seq_cst
    → (n : ℕ) → (ls : List Loaded) × AllEnd o ls × (length ls ≡ n) × (run_sb ls ≡ n)
unfolding run_sb
weak_counts_all o weak zero = ([], tt, refl, refl)
weak_counts_all o weak (suc n) =
    let (ls, ends, long, count) = weak_counts_all o weak n in
    (both_zero ∷ ls, (buffered o weak, ends), ap suc long, omega arith)
