-- ===== src/Sync/Atomic/Fences.antt =====
-- The fences and `cpu_relax` of sync/atomic.hpp, as what they do to the pending stores of the thread
-- that calls them and to the memory, on the machine with store buffers.
use paracore.Base.{ℕ, zero, suc, ◌≡◌, refl, sym, [], ◌∷◌, length}
use paracore.Sync.Memory
use paracore.Sync.Memory.{Order, Access, Cells}
use paracore.Sync.Memory.Buffer.{Pending, drain, forward, perform_buffered, flush}

-- The architectures that the code asks the compiler for.
pub data Arch : Type 0 where
  x86_64 i386 aarch64 unknown : Arch

module _ (cells : Cells) where
  open cells use {Cell}

  -- The stores that wait, oldest first, and the memory.
  abbrev pub Seen : Type 0
  Seen = Pending cells × Memory.Memory cells

  unfoldable pub fence_seq_cst : Seen → Seen
  fence_seq_cst (b, m) = ([], drain cells b m)

  -- Loads are made in order, so that nothing is left for it to do.
  unfoldable pub fence_acquire : Seen → Seen
  fence_acquire s = s

  -- Stores leave the buffer in order, so that nothing is left for it to do.
  unfoldable pub fence_release : Seen → Seen
  fence_release s = s

  -- PAUSE and ISB keep the stores where they are.
  unfoldable pub cpu_relax : Arch → Seen → Seen
  cpu_relax Arch.x86_64 s = s
  cpu_relax Arch.i386 s = s
  cpu_relax Arch.aarch64 s = s
  cpu_relax Arch.unknown s = fence_seq_cst s

  -- What is forwarded to a thread is what memory holds once its stores have left.
  forward-drain :
      (b : Pending cells) (m : Memory.Memory cells) (c : Cell)
      → forward cells b m c ≡ drain cells b m c
  forward-drain [] m c = refl
  forward-drain ((d, v) ∷ b) m c = forward-drain b (Memory.write cells m d v) c

  -- After `fence_seq_cst` a thread reads of every cell what it read before, and so do all threads with
  -- no pending stores of their own.
  pub load-fence_seq_cst :
      (b : Pending cells) (m : Memory.Memory cells) (c : Cell)
      → let (b', m') = fence_seq_cst (b, m) in
        (forward cells b' m' c ≡ forward cells b m c) × (m' c ≡ forward cells b m c)
  unfolding fence_seq_cst
  load-fence_seq_cst b m c = (sym (forward-drain b m c), sym (forward-drain b m c))

  -- A store of any ordering with `fence_seq_cst` after it does what a `seq_cst` store does.
  pub fence_seq_cst-store :
      (o : Order) (c : Cell) (v : ℕ) (b : Pending cells) (m : Memory.Memory cells)
      → let (b', m', r) = perform_buffered cells (Access.store o c v) b m in
        let (b'', m'', r'') = perform_buffered cells (Access.store Order.seq_cst c v) b m in
        (fence_seq_cst (b', m') ≡ (b'', m'')) × (r ≡ r'')
  unfolding fence_seq_cst
  fence_seq_cst-store Order.seq_cst c v b m = (refl, refl)
  fence_seq_cst-store o c v b m = (refl, refl)

  abbrev pub flushes : ℕ → Seen → Seen
  flushes zero s = s
  flushes (suc k) (b, m) = flushes k (flush cells b m)

  -- `fence_seq_cst` waits until the machine has let each pending store reach memory, in order.
  pub flushes-fence_seq_cst :
      (b : Pending cells) (m : Memory.Memory cells)
      → flushes (length b) (b, m) ≡ fence_seq_cst (b, m)
  unfolding fence_seq_cst
  flushes-fence_seq_cst [] m = refl
  flushes-fence_seq_cst ((c, v) ∷ b) m = flushes-fence_seq_cst b (Memory.write cells m c v)
