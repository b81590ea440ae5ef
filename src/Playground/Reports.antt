-- ===== src/Playground/Reports.antt =====
-- `main` and the timed runs of counter.cpp, falsesharing.cpp, bench_false_sharing.cpp and
-- litmus_sb.cpp. The clock's readings and the order of the threads' rounds are arguments, and a
-- `double` is a type of its own, with the operations that the programs use.
pub mod Counted
use paracore.Base.{
  ℕ, zero, suc, ◌+◌, ◌-◌, ◌*◌, ◌%◌, ◌^◌, String, Option, List, [], ◌∷◌, if◌then◌else◌,
}
use paracore.Core.Thread.{hardware_concurrency}
use paracore.Playground.Litmus.{Loaded, run_sb}
use paracore.Playground.Adders.{
  Adders, rounds, long_size, int_size, k_iters, shared_slot, start, thread_count, correct, own_slot,
  sharing_iters, slot_count, bench_iterations,
}

-- `static_cast<double>`, `/` and `*`, and the literals `1e6` and `1000.0`.
pub record Doubles (Double : Type 0) : Type 0 where
  pub of_ℕ : ℕ → Double
  pub over : Double → Double → Double
  pub times : Double → Double → Double
  pub million : Double
  pub thousand : Double

-- A `uint64_t` difference of two clock readings.
abbrev pub since : (t0 t1 : ℕ) → ℕ
since t0 t1 = (t1 + (2 ^ 64 - t0)) % 2 ^ 64

module _ {Double : Type 0} (d : Doubles Double) where
  -- What `main` of counter.cpp prints.
  pub record Sum : Type 0 where
    pub n : ℕ
    pub ms : Double
    pub got : ℕ
    pub want : ℕ
    pub verdict : String
    pub mops : Double

  -- Its threads make their rounds in this order, between the readings `t0` and `t1`.
  unfoldable pub counter_main : (hardware : ℕ) (parsed : Option ℕ) → List ℕ → (t0 t1 : ℕ) → Sum
  unfolding hardware_concurrency thread_count rounds correct
  counter_main hardware parsed order t0 t1 =
      let n : ℕ = thread_count (hardware_concurrency hardware) parsed in
      let ms : Double = d.over (d.of_ℕ (since t0 t1)) d.million in
      let got : ℕ = (rounds long_size shared_slot order (start k_iters)).slot 0 in
      let want : ℕ = n * k_iters in
      record {
        n = n;
        ms = ms;
        got = got;
        want = want;
        verdict = if correct n got then "correct" else "LOST UPDATES";
        mops = d.over (d.of_ℕ want) (d.times ms d.thousand);
      }

  -- `run` of falsesharing.cpp: the milliseconds, and the array after it.
  unfoldable pub run : List ℕ → (t0 t1 : ℕ) → Double × Adders
  unfolding rounds
  run order t0 t1 = (
    d.over (d.of_ℕ (since t0 t1)) d.million,
    rounds long_size own_slot order (start sharing_iters),
  )

  -- What its `main` prints, and the two arrays, where the clock is read at `a`, `b`, `c` and `e`.
  pub record Sharing : Type 0 where
    pub n : ℕ
    pub ms_packed : Double
    pub ms_spread : Double
    pub difference : Double
    pub packed : Adders
    pub spread : Adders

  unfoldable pub sharing_main :
      (hardware : ℕ) (parsed : Option ℕ)
      → (order_packed order_spread : List ℕ) → (a b c e : ℕ) → Sharing
  unfolding hardware_concurrency slot_count run
  sharing_main hardware parsed order_packed order_spread a b c e =
      let (ms_packed, packed) = run order_packed a b in
      let (ms_spread, spread) = run order_spread c e in
      record {
        n = slot_count (hardware_concurrency hardware) parsed;
        ms_packed = ms_packed;
        ms_spread = ms_spread;
        difference = d.over ms_packed ms_spread;
        packed = packed;
        spread = spread;
      }

  -- `RunResult` of bench_false_sharing.cpp.
  pub record RunResult : Type 0 where
    pub threads : ℕ
    pub ns_per_update_dense : Double
    pub ns_per_update_aligned : Double

  -- What a call of `run_for_threads` meets: the orders of the rounds, and what its two stopwatches
  -- show, in nanoseconds.
  pub record Timed : Type 0 where
    pub order_dense : List ℕ
    pub order_aligned : List ℕ
    pub ns_dense : ℕ
    pub ns_aligned : ℕ

  -- `run_for_threads`, and the arrays at the end of their blocks.
  unfoldable pub run_for_threads : (threads iterations : ℕ) → Timed → RunResult × (Adders × Adders)
  unfolding rounds
  run_for_threads threads iterations m =
      let total_updates : Double = d.times (d.of_ℕ threads) (d.of_ℕ iterations) in
      (
        record {
          threads = threads;
          ns_per_update_dense = d.over (d.of_ℕ m.ns_dense) total_updates;
          ns_per_update_aligned = d.over (d.of_ℕ m.ns_aligned) total_updates;
        },
        (
          rounds int_size own_slot m.order_dense (start iterations),
          rounds int_size own_slot m.order_aligned (start iterations),
        ),
      )

  -- The loop of `main` from `threads` on, for `k` more rounds: the rows that it prints, where a call
  -- with so many threads meets what is given for them.
  unfoldable pub rows : (k threads : ℕ) → (ℕ → Timed) → List RunResult
  unfolding run_for_threads
  rows zero threads met = []
  rows (suc k) threads met =
      (run_for_threads threads bench_iterations (met threads)).0 ∷ rows k (threads + 1) met

  unfoldable pub bench_main : (ℕ → Timed) → List RunResult
  unfolding rows
  bench_main met = rows 16 1 met

-- `Result` of litmus_sb.cpp, and its `main`, over what the iterations of each run load.
pub record Result : Type 0 where
  pub iterations : ℕ
  pub both_zero : ℕ

unfoldable pub litmus_main : (relaxed seq_cst : List Loaded) → Result × Result
unfolding run_sb
litmus_main relaxed seq_cst = (
  record { iterations = 1000000; both_zero = run_sb relaxed },
  record { iterations = 1000000; both_zero = run_sb seq_cst },
)
