-- ===== src/Sync/Peterson/Buffered/Needed.antt =====
-- Which stores of src/sync/peterson_lock.cpp have to be `seq_cst` for two threads to exclude each
-- other on the machine with store buffers.
use paracore.Base.{ℕ, ◌<◌, ◌≡◌, ◌≢◌, ◌↔◌, refl, sym, subst}
use paracore.Core.Thread.{ThreadIds}
use paracore.Sync.Memory.{Order, Access}
use paracore.Sync.Memory.Buffer.{Pending, perform_buffered}
use paracore.Sync.Peterson.{index, Cell, Members, lock_cells, Pc, Orders}
use paracore.Sync.Peterson.Invariant.{Holds}
use paracore.Sync.Peterson.Buffered.{Buffered, turn_buffered, step, Reach, start, later, flushed}
use paracore.Sync.Peterson.Buffered.SeqCst.{seq_cst_exclusion}
use paracore.Sync.Peterson.Buffered.Reorder.{release_breaks_exclusion}
use paracore.Sync.Peterson.Buffered.WeakVictim.{strong_flags_break}
use paracore.Sync.Peterson.Buffered.StrongVictim.{strong_victim_exclusion}

-- A `relaxed` store waits in the buffer as a `release` store does.
abbrev buffers : Order → Order
buffers Order.seq_cst = Order.seq_cst
buffers _ = Order.release

abbrev buffers_all : Orders → Orders
buffers_all o = record { of_flag = buffers o.of_flag; of_victim = buffers o.of_victim }

store-buffers :
    (o : Order) (c : lock_cells.Cell) (v : ℕ) (b : Pending lock_cells) (m : Members)
    → perform_buffered lock_cells (Access.store o c v) b m
      ≡ perform_buffered lock_cells (Access.store (buffers o) c v) b m
store-buffers Order.seq_cst c v b m = refl
store-buffers o c v b m = refl

turn-buffers :
    (o : Orders) (me : ℕ) (p : Pc) (b : Pending lock_cells) (m : Members)
    → turn_buffered o me p b m ≡ turn_buffered (buffers_all o) me p b m
unfolding turn_buffered
turn-buffers o me (Pc.raise_flag i) b m = rw (store-buffers o.of_flag (Cell.flag i) 1 b m)
turn-buffers o me (Pc.yield_to i) b m = rw (store-buffers o.of_victim Cell.victim (index i) b m)
turn-buffers o me (Pc.lower_flag i) b m = rw (store-buffers o.of_flag (Cell.flag i) 0 b m)
turn-buffers o me p b m = refl

step-buffers :
    (o : Orders) (ids : ℕ → ℕ) (t : ℕ) (s : Buffered)
    → step o ids t s ≡ step (buffers_all o) ids t s
unfolding step
step-buffers o ids t s = rw (turn-buffers o (ids t) (s.pc t) (s.pending t) s.mem)

Reach-buffers :
    {o : Orders} {n : ℕ} {ids : ℕ → ℕ} {s : Buffered}
    → Reach o n ids s
    → Reach (buffers_all o) n ids s
Reach-buffers start = start
Reach-buffers {o} {ids = ids} (later {s} t here r) =
    rw (step-buffers o ids t s) (later t here (Reach-buffers r))
Reach-buffers (flushed t here r) = flushed t here (Reach-buffers r)

buffers-Reach :
    {o : Orders} {n : ℕ} {ids : ℕ → ℕ} {s : Buffered}
    → Reach (buffers_all o) n ids s
    → Reach o n ids s
buffers-Reach start = start
buffers-Reach {o} {ids = ids} (later {s} t here r) =
    rw⁻¹ (step-buffers o ids t s) (later t here (buffers-Reach r))
buffers-Reach (flushed t here r) = flushed t here (buffers-Reach r)

module _ {n : ℕ} {ids : ℕ → ℕ} (known : ThreadIds n ids) (t u : ℕ) (ht : t < n) (hu : u < n)
    (ne : t ≢ u) where
  -- Both threads can be inside at once.
  Meet : Orders → Type 0
  Meet o = (s : Buffered) × Reach o n ids s × (s.pc t ≡ Pc.inside) × (s.pc u ≡ Pc.inside)

  -- A store of `victim_` that waits in the buffer lets both in.
  weak-Meet : (f v : Order) → v ≢ Order.seq_cst → Meet (record { of_flag = f; of_victim = v })
  unfolding Meet
  weak-Meet f Order.seq_cst weak = absurd (weak refl)
  weak-Meet Order.seq_cst v weak =
      let (s, r, a, b) = strong_flags_break known t u ht hu ne in (s, buffers-Reach r, a, b)
  weak-Meet f v weak =
      let (s, r, a, b) = release_breaks_exclusion known t u ht hu ne in (s, buffers-Reach r, a, b)

  -- A store of `victim_` that does not wait keeps them apart.
  strong-Meet : (f : Order) → ¬ Meet (record { of_flag = f; of_victim = Order.seq_cst })
  unfolding Meet
  strong-Meet Order.seq_cst (s, r, a, b) =
      ne (seq_cst_exclusion known r t u ht hu (subst Holds (sym a) tt) (subst Holds (sym b) tt))
  strong-Meet f (s, r, a, b) = ne (
      strong_victim_exclusion known (Reach-buffers r) t u ht hu (subst Holds (sym a) tt)
        (subst Holds (sym b) tt))

  -- Two threads whose ids are not 0 and differ can be inside at once, on the machine with store
  -- buffers, exactly when the stores of `victim_` are not `seq_cst`, whatever the stores of the
  -- flags are and whatever other threads do.
  pub meet_iff :
      (o : Orders)
      → ((s : Buffered) × Reach o n ids s × (s.pc t ≡ Pc.inside) × (s.pc u ≡ Pc.inside))
        ↔ (o.of_victim ≢ Order.seq_cst)
  unfolding Meet
  meet_iff o = (
    (λ met strong.
        strong-Meet o.of_flag
          (subst (λ v. Meet (record { of_flag = o.of_flag; of_victim = v })) strong met)),
    weak-Meet o.of_flag o.of_victim,
  )
