-- ===== src/Suite/Core.antt =====
-- tests/test_core.cpp, but for its tests of Mutex and CondVar with more than one call, which are
-- Suite.Locks and Suite.Handshake. What the platform answers is an argument of a test.
pub mod Portable
use Prim.Native.String.{len}
use paracore.Base.{
  ℕ, zero, suc, ◌+◌, ◌-◌, ◌*◌, ◌%◌, ◌^◌, Bool, true, false, not, Option, none, some, List, [], ◌∷◌,
  ◌==◌, ltb, leb,
}
use paracore.Core.Status.{Status, Result, fail, Errno, OsError, to_string}
use paracore.Core.Thread.{hardware_concurrency}
use paracore.Core.Mutex.CondVar.{Timespec, wait_for_status}
use paracore.Bench.{now_ns}
use paracore.Sync.Atomic.{Backoff, new, reset, repeated, cache_line, aligned_size}
use paracore.Playground.Adders.{start, rounds, int_size, shared_slot}
use paracore.Suite.Asserts.{
  Test, ◌>>=◌, ◌>>◌, same_status, assert, assert_eq, assert_status, unwrap,
}

-- `!to_string(st).empty()`
abbrev has_text : Status → Bool
has_text st = ltb 0 (len (to_string st))

-- The cast of -12345, which no enumerator has, is the argument.
unfoldable pub status_has_text_for_every_code : ℕ → Test
unfolding to_string assert
status_has_text_for_every_code cast =
    assert "!to_string(Ok).empty()" (has_text Status.ok)
    >> assert "!to_string(NotBuilt).empty()" (has_text Status.not_built)
    >> assert "!to_string(-12345).empty()" (has_text (Status.unnamed cast))

-- `n` is what the standard library answers.
unfoldable pub hardware_concurrency_is_never_zero : ℕ → Test
unfolding hardware_concurrency assert
hardware_concurrency_is_never_zero n =
    assert "hardware_concurrency() >= 1u" (leb 1 (hardware_concurrency n))

-- Eight threads add 1 to `n`, in this order, and are joined.
unfoldable pub threads_start_and_join : List ℕ → Test
unfolding rounds assert_eq
threads_start_and_join order =
    assert_eq "n.load()" "8" ((rounds int_size shared_slot order (start 1)).slot 0) 8

-- What `saw_stop` is when the thread has ended, if it has: it ends once a poll of its token answers
-- that the stop is requested.
abbrev saw_stop : List Bool → Option Bool
saw_stop [] = none
saw_stop (true ∷ polls) = some true
saw_stop (false ∷ polls) = saw_stop polls

-- The test, which goes on when the thread has ended.
unfoldable pub stop_token_is_the_cooperative_stop : (polls : List Bool) → Option Test
unfolding assert
stop_token_is_the_cooperative_stop polls = elim (saw_stop polls) [
  | none ↦ none
  | some seen ↦ some (assert "saw_stop.load()" seen)
]

-- The wait returns `rc`, and `t0` and `t1` are the readings of the clock around it.
unfoldable pub cond_wait_for_times_out : Errno → OsError → (rc : ℕ) → (t0 t1 : Timespec) → Test
unfolding wait_for_status assert assert_status
cond_wait_for_times_out os s rc t0 t1 =
    assert_status "cv.wait_for(lk, 50ms)" (wait_for_status os rc s).0 Status.timed_out
    >> assert "dt >= 40ULL * 1000000ULL"
        (leb (40 * 1000000) ((now_ns t1 + (2 ^ 64 - now_ns t0)) % 2 ^ 64))

unfoldable pub backoff_grows_and_caps : Test
unfolding new reset repeated assert_eq
backoff_grows_and_caps =
    let b : Backoff = new 64 in
    let grown : Backoff = (repeated 20 b).1 in
    assert_eq "b.limit()" "1" b.limit 1
    >> assert_eq "b.limit()" "64" grown.limit 64
    >> assert_eq "b.limit()" "1" (reset grown).limit 1

-- `t` is aligned as its members are, so that it begins at a line, and an atomic has `size` bytes.
unfoldable pub cache_aligned_sits_on_its_own_line : (lines size : ℕ) → Test
unfolding aligned_size assert
cache_aligned_sits_on_its_own_line lines size =
    let pa : ℕ = lines * cache_line in
    let pb : ℕ = pa + aligned_size size in
    assert "pb - pa >= kCacheLine" (leb cache_line (pb - pa))
    >> assert "pa % kCacheLine == 0" (pa % cache_line == 0)

unfoldable pub monotonic_clock_moves_forward : (a b : Timespec) → Test
unfolding assert
monotonic_clock_moves_forward a b = assert "b >= a" (leb (now_ns a) (now_ns b))

abbrev has_value : {A : Type 0} → Result A → Bool
has_value (Result.value a) = true
has_value (Result.unexpected st) = false

-- `error()` of a result with a value is undefined; the test asks for it of one without.
abbrev error : {A : Type 0} → Result A → Status
error (Result.value a) = Status.ok
error (Result.unexpected st) = st

unfoldable pub result_carries_either_value_or_status : Test
unfolding fail assert assert_eq assert_status unwrap
result_carries_either_value_or_status =
    let good : Result ℕ = Result.value 42 in
    let bad : Result ℕ = fail Status.empty in
    assert "ok.has_value()" (has_value good)
    >> (unwrap "*ok" good >>= λ v. assert_eq "*ok" "42" v 42)
    >> assert "!bad.has_value()" (not (has_value bad))
    >> assert_status "bad.error()" (error bad) Status.empty
