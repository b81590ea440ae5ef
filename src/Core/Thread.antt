-- ===== src/Core/Thread.antt =====
-- core/thread.hpp and src/core/thread.cpp: thread ids, the number of cores, pinning.
-- `std::thread::hardware_concurrency` and `pthread_setaffinity_np` are the platform's: what they
-- answer is an argument.
pub mod Identity
pub mod Pinning
use paracore.Base.{
  ℕ, suc, ◌+◌, ◌%◌, ◌^◌, ◌<◌, ◌≡◌, ◌≢◌, List, [], ◌∷◌, ◌==◌, ltb, if◌then◌else◌, update,
}
use paracore.Core.Status.{Status, Errno, OsError, from_errno}

-- The process-wide counter and every thread's own `id`.
pub record Ids : Type 0 where
  pub next_id : ℕ  -- std::atomic<std::uint64_t>
  pub id : ℕ → ℕ  -- thread_local std::uint64_t

abbrev pub init : Ids
init = record { next_id = 1; id = λ _. 0 }

-- `thread_id()`, called by thread `t`. The only shared access is the `fetch_add`, so a call is one
-- step whatever other threads do.
unfoldable pub thread_id : ℕ → Ids → ℕ × Ids
thread_id t s =
    if s.id t == 0
    then (s.next_id, record { next_id = (s.next_id + 1) % 2 ^ 64; id = update s.id t s.next_id })
    else (s.id t, s)

-- Calls of `thread_id` by the given threads, in the order of their steps.
unfoldable pub ask : List ℕ → Ids → Ids
ask [] s = s
ask (t ∷ ts) s = ask ts (thread_id t s).1

-- `hardware_concurrency()`, where the standard library's answers `n`.
unfoldable pub hardware_concurrency : ℕ → ℕ
hardware_concurrency n = if ltb 0 n then n else 1

-- `pin_this_thread(cpu)`, where `pthread_setaffinity_np` returns `rc`.
unfoldable pub pin_this_thread : Errno → ℕ → OsError → Status × OsError
unfolding from_errno
pin_this_thread os rc s = if rc == 0 then (Status.ok, s) else from_errno os rc s

-- What a client may assume of the ids of threads 0 to `n - 1`: never 0, never shared.
pub record ThreadIds (n : ℕ) (ids : ℕ → ℕ) : Type 0 where
  pub named : (t : ℕ) → t < n → ids t ≢ 0
  pub distinct : (t u : ℕ) → t < n → u < n → ids t ≡ ids u → t ≡ u
