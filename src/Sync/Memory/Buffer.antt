-- ===== src/Sync/Memory/Buffer.antt =====
-- The machine with store buffers: a thread's stores wait in its own buffer, oldest first, and
-- reach memory one at a time, when the machine chooses. A thread reads its own newest store.
-- A `seq_cst` store and a read-modify-write leave with an empty buffer.
use paracore.Base.{ℕ, List, [], ◌∷◌, ◌++◌}
use paracore.Sync.Memory
use paracore.Sync.Memory.{Order, Access, Cells}

module _ (cells : Cells) where
  open cells use {Cell, same}

  abbrev pub Pending : Type 0
  Pending = List (Cell × ℕ)

  abbrev pub drain : Pending → Memory.Memory cells → Memory.Memory cells
  drain [] m = m
  drain ((c, v) ∷ b) m = drain b (Memory.write cells m c v)

  -- The newest pending store to the cell, or else memory.
  abbrev pub forward : Pending → Memory.Memory cells → Cell → ℕ
  forward [] m c = m c
  forward ((d, v) ∷ b) m c = forward b (Memory.write cells m d v) c

  -- One access of a thread with pending stores: its buffer and memory after it, and the value.
  abbrev pub perform_buffered :
      Access Cell → Pending → Memory.Memory cells → (b' : Pending) × (m' : Memory.Memory cells) × ℕ
  perform_buffered Access.none b m = (b, m, 0)
  perform_buffered (Access.load c) b m = (b, m, forward b m c)
  perform_buffered (Access.store Order.seq_cst c v) b m = ([], drain (b ++ (c, v) ∷ []) m, 0)
  perform_buffered (Access.store _ c v) b m = (b ++ (c, v) ∷ [], m, 0)
  perform_buffered (Access.cas c expected desired) b m =
      let (m', v) = Memory.perform cells (Access.cas c expected desired) (drain b m) in ([], m', v)
  perform_buffered (Access.add c n) b m =
      let (m', v) = Memory.perform cells (Access.add c n) (drain b m) in ([], m', v)

  -- The oldest pending store reaches memory.
  abbrev pub flush : Pending → Memory.Memory cells → Pending × Memory.Memory cells
  flush [] m = ([], m)
  flush ((c, v) ∷ b) m = (b, Memory.write cells m c v)
