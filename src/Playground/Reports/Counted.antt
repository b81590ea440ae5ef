-- ===== src/Playground/Reports/Counted.antt =====
-- What the programs report.
use paracore.Base.{ℕ, ◌<◌, ◌^◌, ◌≡◌, refl, ◌∙◌, Option, List, [], ◌∷◌, Among, arith}
use paracore.Core.Thread.{hardware_concurrency}
use paracore.Playground.Adders.{
  rounds, long_size, int_size, k_iters, shared_slot, start, thread_count, own_slot,
}
use paracore.Playground.Adders.Sums.{Done, pending, pending_own, slot-Done, counter_correct}
use paracore.Playground.Reports.{
  Doubles, counter_main, RunResult, Timed, run_for_threads, bench_main,
}

-- The numbers of threads in the table of bench_false_sharing.cpp.
abbrev threads_of : {Double : Type 0} {d : Doubles Double} → List (RunResult d) → List ℕ
threads_of [] = []
threads_of (r ∷ rs) = r.threads ∷ threads_of rs

module _ {Double : Type 0} (d : Doubles Double) where
  -- When its threads are through, counter.cpp prints the sum that it wants, and "correct", whatever
  -- the argument asks for.
  pub counter_reports :
      (hardware : ℕ) (parsed : Option ℕ) (order : List ℕ) (t0 t1 : ℕ)
      → let n = thread_count (hardware_concurrency hardware) parsed in
        n < 2 ^ 32
        → Among n order
        → Done n (rounds long_size shared_slot order (start k_iters)).left
        → ((counter_main d hardware parsed order t0 t1).got
            ≡ (counter_main d hardware parsed order t0 t1).want)
          × ((counter_main d hardware parsed order t0 t1).verdict ≡ "correct")
  unfolding counter_main
  counter_reports hardware parsed order t0 t1 few here done =
      let (sum, right) =
        counter_correct (thread_count (hardware_concurrency hardware) parsed) order few here done in
      (sum, rw right refl)

  -- The table of bench_false_sharing.cpp has a row for each number of threads from 1 to 16, in order.
  pub bench_rows :
      (met : ℕ → Timed d)
      → threads_of (bench_main d met)
        ≡ 1 ∷ 2 ∷ 3 ∷ 4 ∷ 5 ∷ 6 ∷ 7 ∷ 8 ∷ 9 ∷ 10 ∷ 11 ∷ 12 ∷ 13 ∷ 14 ∷ 15 ∷ 16 ∷ []
  unfolding bench_main
  bench_rows met = refl

  -- When the threads of both halves of `run_for_threads` are through, each element of either array
  -- holds the number of iterations, if that fits an `int`.
  pub bench_counts :
      (threads iterations : ℕ) (m : Timed d)
      → iterations < 2 ^ 32
      → Among threads m.order_dense
      → Among threads m.order_aligned
      → let (r, (dense, aligned)) = run_for_threads d threads iterations m in
        Done threads dense.left
        → Done threads aligned.left
        → (i : ℕ) → i < threads
        → (dense.slot i ≡ iterations) × (aligned.slot i ≡ iterations)
  unfolding run_for_threads
  bench_counts threads iterations m fits here there done over i lt = (
    slot-Done int_size own_slot threads i iterations m.order_dense small here done ∙ own,
    slot-Done int_size own_slot threads i iterations m.order_aligned small there over ∙ own,
  )
    where
      own : pending own_slot (λ _. iterations) threads i ≡ iterations
      own = pending_own iterations threads i lt

      small : pending own_slot (λ _. iterations) threads i < int_size
      small = omega (arith, own)
