-- ===== src/Tests/Sync/Machines.antt =====
-- Concrete runs of Backoff and the litmus programs.
use paracore.Base.{◌*◌, ◌≤◌, ◌<◌, ◌≡◌, ◌⊎◌, ◌^◌, refl, List, [], ◌∷◌, length, arith}
use paracore.Sync.Memory.{Order}
use paracore.Sync.Atomic.{new, repeated}
use paracore.Sync.Atomic.Window.{window_bounds, window_wraps}
use paracore.Playground.Litmus.{Thread, Loaded, run_sb, step, start, later}
use paracore.Playground.Litmus.Orders.{Ends, AllEnd, seq_cst_counts_none, weak_counts_all}

window_bounds_example :
    ((repeated 5 (new 1024)).1.max ≡ 1024)
    × (0 < (repeated 5 (new 1024)).1.limit)
    × ((repeated 5 (new 1024)).1.limit < 2 * 1024)
    × (((repeated 5 (new 1024)).1.limit ≡ 2 ^ 5) ⊎ (1024 ≤ (repeated 5 (new 1024)).1.limit))
window_bounds_example = window_bounds 1024 5 (omega arith) (omega arith)

window_wraps_example :
    repeated 3 (repeated 32 (new 4294967295)).1 ≡ (0, record { limit = 0; max = 4294967295 })
window_wraps_example = window_wraps 4294967295 3 (omega arith) (omega arith)

-- The first thread is done before the second begins.
abbrev in_order : Loaded
in_order = record { r1 = 0; r2 = 1 }

in_order-Ends : Ends Order.seq_cst in_order
unfolding step
in_order-Ends =
    (_, later Thread.t2 (later Thread.t2 (later Thread.t1 (later Thread.t1 start))), refl, refl)

seq_cst_counts_none_example : run_sb (in_order ∷ []) ≡ 0
seq_cst_counts_none_example = seq_cst_counts_none (in_order ∷ []) (in_order-Ends, tt)

weak_counts_all_example :
    (ls : List Loaded) × AllEnd Order.release ls × (length ls ≡ 3) × (run_sb ls ≡ 3)
weak_counts_all_example = weak_counts_all Order.release (λ e. cc) 3
