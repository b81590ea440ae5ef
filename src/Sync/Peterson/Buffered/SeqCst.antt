-- ===== src/Sync/Peterson/Buffered/SeqCst.antt =====
-- The code of src/sync/peterson_lock.cpp with `seq_cst` stores, beside the interleaving of System.
use paracore.Base.{ℕ, ◌<◌, ◌≡◌, refl, [], inl, inr, Bool-cases, update, arith}
use paracore.Core.Thread.{ThreadIds}
use paracore.Sync.Memory.{Order}
use paracore.Sync.Memory.Buffer.{Pending}
use paracore.Sync.Peterson.{Members, lock_cells, Pc, everywhere}
use paracore.Sync.Peterson.System
use paracore.Sync.Peterson.System.{System, turn}
use paracore.Sync.Peterson.Invariant.{Holds}
use paracore.Sync.Peterson.Safety.{mutual_exclusion}
use paracore.Sync.Peterson.Buffered.{
  Buffered, turn_buffered, step, release_store, Reach, start, later, flushed,
}

-- The state that a state of the buffered machine stands for.
abbrev pub view : Buffered → System
view s = record { mem = s.mem; pc = s.pc; alive = s.alive }

-- With an empty buffer and `seq_cst` stores an access is the interleaving machine's.
turn_seq_cst :
    (me : ℕ) (p : Pc) (m : Members)
    → turn_buffered (everywhere Order.seq_cst) me p [] m ≡ ([], (turn me p m).0, (turn me p m).1)
unfolding turn_buffered
turn_seq_cst me Pc.outside m = refl
turn_seq_cst me p m = refl

view-step :
    (ids : ℕ → ℕ) (t : ℕ) (s : Buffered)
    → s.pending t ≡ []
    → view (step (everywhere Order.seq_cst) ids t s) ≡ System.step ids t (view s)
unfolding step System.step
view-step ids t s none_pending = elim (Bool-cases s.alive) [
  | inl up ↦ rw (none_pending, turn_seq_cst (ids t) (s.pc t) s.mem, up)
  | inr down ↦ rw down
]

update_none :
    (pending : ℕ → Pending lock_cells) (t : ℕ)
    → ((u : ℕ) → pending u ≡ [])
    → (u : ℕ) → update pending t [] u ≡ []
update_none pending t none_pending u = ground (arith, none_pending u)

pending-step :
    (ids : ℕ → ℕ) (t : ℕ) (s : Buffered)
    → ((u : ℕ) → s.pending u ≡ [])
    → (u : ℕ) → (step (everywhere Order.seq_cst) ids t s).pending u ≡ []
unfolding step
pending-step ids t s none_pending u = elim (Bool-cases s.alive) [
  | inl up ↦
      rw (none_pending t, turn_seq_cst (ids t) (s.pc t) s.mem, up)
        (update_none s.pending t none_pending u)
  | inr down ↦ rw down (none_pending u)
]

-- A state that `seq_cst` stores reach has empty buffers, and its view is reached by interleaving.
pub record Agrees (n : ℕ) (ids : ℕ → ℕ) (s : Buffered) : Type 0 where
  pub reach : System.Reach n ids (view s)
  pub empty : (t : ℕ) → s.pending t ≡ []

release-nothing : (t : ℕ) (s : Buffered) → s.pending t ≡ [] → view (release_store t s) ≡ view s
unfolding release_store
release-nothing t s none_pending = rw none_pending

release-empty :
    (t : ℕ) (s : Buffered)
    → ((u : ℕ) → s.pending u ≡ [])
    → (u : ℕ) → (release_store t s).pending u ≡ []
unfolding release_store
release-empty t s none_pending u = rw (none_pending t) (update_none s.pending t none_pending u)

-- The machine with `seq_cst` stores refines the interleaving of the threads on one memory.
pub seq_cst-Agrees :
    {n : ℕ} {ids : ℕ → ℕ} {s : Buffered} → Reach (everywhere Order.seq_cst) n ids s → Agrees n ids s
seq_cst-Agrees start = record { reach = System.start; empty = λ _. refl }
seq_cst-Agrees {n} {ids} (later {s} t here r) =
    let old : Agrees n ids s = seq_cst-Agrees r in
    record {
      reach = rw (view-step ids t s (old.empty t)) (System.later t here old.reach);
      empty = pending-step ids t s old.empty;
    }
seq_cst-Agrees {n} {ids} (flushed {s} t here r) =
    let old : Agrees n ids s = seq_cst-Agrees r in
    record {
      reach = rw (release-nothing t s (old.empty t)) old.reach;
      empty = release-empty t s old.empty;
    }

-- The same code with `seq_cst` stores excludes on the machine with store buffers: of threads with
-- ids that are not 0 and differ, at most one holds the lock in any state that is reached.
pub seq_cst_exclusion :
    {n : ℕ} {ids : ℕ → ℕ} {s : Buffered}
    → ThreadIds n ids
    → Reach (everywhere Order.seq_cst) n ids s
    → (t u : ℕ) → t < n
    → u < n
    → Holds (s.pc t)
    → Holds (s.pc u)
    → t ≡ u
seq_cst_exclusion known r = mutual_exclusion known (seq_cst-Agrees r).reach
