-- ===== src/Suite/Core/Portable.antt =====
-- The tests of Suite.Core on any platform.
use paracore.Base.{
  ℕ, zero, suc, ◌+◌, ◌*◌, ◌-◌, ◌/◌, ◌%◌, ◌^◌, ◌==◌, ==_refl, Among, ◌≤◌, ◌<◌, ◌≡◌, refl, ◌∙◌, Bool,
  true, false, some, List, [], ◌∷◌, ◌++◌, replicate, leb, arith,
}
use paracore.Core.Status.{Status, Errno, OsError}
use paracore.Core.Mutex.CondVar.{Timespec, wait_for_status}
use paracore.Bench.{now_ns}
use paracore.Sync.Atomic.{once}
use paracore.Playground.Adders.{start, rounds, int_size, shared_slot}
use paracore.Playground.Adders.Sums.{Done, slot-Done, pending_shared}
use paracore.Suite.Asserts.{Verdict, Passes, same_status}
use paracore.Suite.Asserts.Pass.{if-Passes, Passes-both}
use paracore.Suite.Core.{
  status_has_text_for_every_code, hardware_concurrency_is_never_zero, threads_start_and_join,
  stop_token_is_the_cooperative_stop, cond_wait_for_times_out, backoff_grows_and_caps,
  cache_aligned_sits_on_its_own_line, monotonic_clock_moves_forward,
  result_carries_either_value_or_status,
}

text : (cast : ℕ) → Passes (status_has_text_for_every_code cast)
unfolding status_has_text_for_every_code
text cast = tt

cores : (n : ℕ) → Passes (hardware_concurrency_is_never_zero n)
unfolding hardware_concurrency_is_never_zero
cores n = ground arith

windows : Passes backoff_grows_and_caps
unfolding backoff_grows_and_caps once
windows = tt

results : Passes result_carries_either_value_or_status
unfolding result_carries_either_value_or_status
results = tt

wide :
    (lines size : ℕ)
    → 0 < size
    → leb 64 (lines * 64 + (size + 64 - 1) / 64 * 64 - lines * 64) ≡ true
wide lines size pos = ground arith

at_line : (lines : ℕ) → (lines * 64 % 64 == 0) ≡ true
at_line lines = ground arith

ordered : (a b : ℕ) → a ≤ b → leb a b ≡ true
ordered a b h = ground arith

lines_apart : (lines size : ℕ) → 0 < size → Passes (cache_aligned_sits_on_its_own_line lines size)
unfolding cache_aligned_sits_on_its_own_line
lines_apart lines size pos =
    Passes-both _ _ ((if-Passes _ _).1 (wide lines size pos)) ((if-Passes _ _).1 (at_line lines))

forward : (a b : Timespec) → now_ns a ≤ now_ns b → Passes (monotonic_clock_moves_forward a b)
unfolding monotonic_clock_moves_forward
forward a b h = (if-Passes _ _).1 (ordered (now_ns a) (now_ns b) h)

small : (t : Timespec) → now_ns t < 2 ^ 64
unfolding now_ns
small t = omega arith

elapsed :
    (a b d : ℕ) → a < 2 ^ 64 → b < 2 ^ 64 → a + d ≤ b → leb d ((b + (2 ^ 64 - a)) % 2 ^ 64) ≡ true
elapsed a b d ha hb h = ground arith

times_out_status :
    (os : Errno) (s : OsError)
    → same_status (wait_for_status os os.etimedout s).0 Status.timed_out ≡ true
unfolding wait_for_status
times_out_status os s = rw (==_refl os.etimedout) refl

times_out :
    (os : Errno) (s : OsError) (t0 t1 : Timespec)
    → now_ns t0 + 40 * 1000000 ≤ now_ns t1
    → Passes (cond_wait_for_times_out os s os.etimedout t0 t1)
unfolding cond_wait_for_times_out
times_out os s t0 t1 h =
    Passes-both _ _ ((if-Passes _ _).1 (times_out_status os s))
      ((if-Passes _ _).1 (elapsed (now_ns t0) (now_ns t1) (40 * 1000000) (small t0) (small t1) h))

joined :
    (order : List ℕ)
    → Among 8 order
    → Done 8 (rounds int_size shared_slot order (start 1)).left
    → Passes (threads_start_and_join order)
unfolding threads_start_and_join
joined order here done = (if-Passes _ _).1 (rw sum refl)
  where
    sum : (rounds int_size shared_slot order (start 1)).slot 0 ≡ 8
    sum =
        slot-Done int_size shared_slot 8 0 1 order (omega (arith, pending_shared 1 8)) here done
        ∙ pending_shared 1 8

stops :
    (n : ℕ) (polls : List Bool)
    → stop_token_is_the_cooperative_stop (replicate n false ++ (true ∷ polls))
      ≡ some (Verdict.passes tt)
unfolding stop_token_is_the_cooperative_stop
stops zero polls = refl
stops (suc n) polls = stops n polls

-- The tests of test_core.cpp that are not about the blocking calls pass whatever the platform
-- answers, if it answers as documented: for any number of cores of the standard library, also 0, and
-- any cast to a Status; in whatever order the eight threads make their one round each; however often
-- the thread polls before the stop is requested; for values of any size that is not 0; for clock
-- readings that do not go back; and for a wait that ends with ETIMEDOUT, 40 ms or more after it began.
pub core_tests_pass :
    (os : Errno) (s : OsError) (cast n polled lines size : ℕ) (order : List ℕ)
    → (t0 t1 : Timespec) → 0 < size
    → Among 8 order
    → Done 8 (rounds int_size shared_slot order (start 1)).left
    → now_ns t0 + 40 * 1000000 ≤ now_ns t1
    → Passes (status_has_text_for_every_code cast)
      × Passes (hardware_concurrency_is_never_zero n)
      × Passes (threads_start_and_join order)
      × (stop_token_is_the_cooperative_stop (replicate polled false ++ (true ∷ []))
          ≡ some (Verdict.passes tt))
      × Passes (cond_wait_for_times_out os s os.etimedout t0 t1)
      × Passes backoff_grows_and_caps
      × Passes (cache_aligned_sits_on_its_own_line lines size)
      × Passes (monotonic_clock_moves_forward t0 t1)
      × Passes result_carries_either_value_or_status
core_tests_pass os s cast n polled lines size order t0 t1 pos here done later = (
  text cast,
  cores n,
  joined order here done,
  stops polled [],
  times_out os s t0 t1 later,
  windows,
  lines_apart lines size pos,
  forward t0 t1 (omega (arith, later)),
  results,
)
