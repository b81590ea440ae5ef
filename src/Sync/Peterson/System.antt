-- ===== src/Sync/Peterson/System.antt =====
-- Threads that use one PetersonLock, interleaved access by access on one memory.
use paracore.Base.{ℕ, ◌<◌, Bool, true, false, update, if◌then◌else◌}
use paracore.Sync.Memory.{Order, perform}
use paracore.Sync.Peterson.{Members, lock_cells, new, Pc, everywhere, access, proceed}

pub record System : Type 0 where
  pub mem : Members
  pub pc : ℕ → Pc
  pub alive : Bool  -- false after `std::abort()`

abbrev pub is_alive : Pc → Bool
is_alive Pc.aborted = false
is_alive _ = true

-- The next access of a thread with id `me` that stands at `p`.
abbrev pub turn : ℕ → Pc → Members → Members × Pc
turn me p m =
    let (m', v) = perform lock_cells (access (everywhere Order.release) me p) m in
    (m', proceed me p v)

-- The thread `t` makes its next access, if the process has not been aborted.
unfoldable pub step : (ℕ → ℕ) → ℕ → System → System
step ids t s =
    let (m', p') = turn (ids t) (s.pc t) s.mem in
    if s.alive then record { mem = m'; pc = update s.pc t p'; alive = is_alive p' } else s

abbrev pub init : System
init = record { mem = new; pc = λ _. Pc.outside; alive = true }

-- The states that `n` threads can reach.
pub data Reach (n : ℕ) (ids : ℕ → ℕ) : System → Type 0 where
  start : Reach n ids init
  later : {s : System} (t : ℕ) → t < n → Reach n ids s → Reach n ids (step ids t s)
