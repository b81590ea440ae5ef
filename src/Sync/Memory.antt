-- ===== src/Sync/Memory.antt =====
-- The atomic accesses that the library's code makes (`std::atomic`, documented in
-- sync/atomic.hpp), and two machines that carry them out: one that interleaves them on a single
-- memory, and one whose threads keep their stores in a first-in first-out buffer for a while, as
-- x86 processors do. Both are interpretations of code that is written once.
pub mod Buffer
use paracore.Base.{ℕ, ◌+◌, Bool, ◌==◌, if◌then◌else◌}

-- The orderings of `std::memory_order` that matter to a store.
pub data Order : Type 0 where
  relaxed release seq_cst : Order

-- One shared access. `cas c e d` is `compare_exchange_strong`, `add` is `fetch_add`; `none` is a
-- step that touches no shared memory. Values are numbers: `false` is 0 and `true` is 1.
pub data Access (C : Type 0) : Type 0 where
  none : Access C
  load : C → Access C
  store : Order → C → ℕ → Access C
  cas : C → ℕ → ℕ → Access C
  add : C → ℕ → Access C

-- Cells that can be compared.
pub record Cells : Type 1 where
  pub Cell : Type 0
  pub same : Cell → Cell → Bool

module _ (cells : Cells) where
  open cells use {Cell, same}

  abbrev pub Memory : Type 0
  Memory = Cell → ℕ

  abbrev pub write : Memory → Cell → ℕ → Memory
  write m c v d = if same c d then v else m d

  -- One access on a single memory: the memory after it, and the value that it returns.
  abbrev pub perform : Access Cell → Memory → Memory × ℕ
  perform none m = (m, 0)
  perform (load c) m = (m, m c)
  perform (store _ c v) m = (write m c v, 0)
  perform (cas c expected desired) m = if m c == expected then (write m c desired, 1) else (m, 0)
  perform (add c n) m = (write m c (m c + n), m c)
