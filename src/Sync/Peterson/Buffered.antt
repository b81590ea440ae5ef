-- ===== src/Sync/Peterson/Buffered.antt =====
-- The same code on a machine whose threads keep their stores in buffers for a while. The stores of
-- src/sync/peterson_lock.cpp are `release`; the orderings are a parameter here, so that the same
-- code can be run with `seq_cst` stores, the ordering that sync/atomic.hpp asks for.
pub mod Alone
pub mod SeqCst
pub mod Reorder
pub mod WeakVictim
pub mod Lag
pub mod StrongVictim
pub mod Needed
use paracore.Base.{ℕ, ◌<◌, [], Bool, true, update, if◌then◌else◌}
use paracore.Sync.Memory.Buffer.{Pending, perform_buffered, flush}
use paracore.Sync.Peterson.{Members, lock_cells, new, Pc, Orders, access, proceed}
use paracore.Sync.Peterson.System.{is_alive}

pub record Buffered : Type 0 where
  pub mem : Members
  pub pending : ℕ → Pending lock_cells
  pub pc : ℕ → Pc
  pub alive : Bool

-- The next access of a thread with id `me`: its pending stores, the memory and its place after it.
unfoldable pub turn_buffered :
    Orders → ℕ → Pc → Pending lock_cells → Members → (b' : Pending lock_cells) × (m' : Members) × Pc
turn_buffered o me p b m =
    let (b', m', v) = perform_buffered lock_cells (access o me p) b m in (b', m', proceed me p v)

unfoldable pub step : Orders → (ℕ → ℕ) → ℕ → Buffered → Buffered
step o ids t s =
    let (b', m', p') = turn_buffered o (ids t) (s.pc t) (s.pending t) s.mem in
    if s.alive
    then record {
      mem = m';
      pending = update s.pending t b';
      pc = update s.pc t p';
      alive = is_alive p';
    }
    else s

-- The oldest pending store of thread `t` reaches memory.
unfoldable pub release_store : ℕ → Buffered → Buffered
release_store t s =
    let (b', m') = flush lock_cells (s.pending t) s.mem in
    record s { mem = m'; pending = update s.pending t b' }

abbrev pub init : Buffered
init = record { mem = new; pending = λ _. []; pc = λ _. Pc.outside; alive = true }

pub data Reach (o : Orders) (n : ℕ) (ids : ℕ → ℕ) : Buffered → Type 0 where
  start : Reach o n ids init
  later : {s : Buffered} (t : ℕ) → t < n → Reach o n ids s → Reach o n ids (step o ids t s)
  flushed : {s : Buffered} (t : ℕ) → t < n → Reach o n ids s → Reach o n ids (release_store t s)
