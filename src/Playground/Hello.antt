-- ===== src/Playground/Hello.antt =====
-- playground/hello.cpp. How `std::format` writes a number is an argument.
pub mod Lines
use Prim.Native.String.{◌++◌}
use paracore.Base.{ℕ, String, List, [], ◌∷◌}
use paracore.Core.Status.{Result, Errno, to_string}
use paracore.Core.Outcome.{Outcome, ◌>>◌}
use paracore.Core.Mutex
use paracore.Core.Mutex.{Pthread}
use paracore.Core.Thread.{hardware_concurrency}
use paracore.Sync.Atomic.{cache_line}
use paracore.Exec.{ThreadPool, create_pool}
use paracore.Ds.Queue.{new_michael_scott, michael_scott_queue}
use paracore.Version.{version_string}

-- `pool ? "ok" : para::to_string(pool.error())`
unfoldable pub pool_text : Result ThreadPool → String
unfolding to_string
pool_text (Result.value pool) = "ok"
pool_text (Result.unexpected st) = to_string st

module _ (shown : ℕ → String) (hardware : ℕ) where
  -- The lines up to the Mutex, and these after them.
  unfoldable pub greeting : List String → List String
  unfolding hardware_concurrency
  greeting rest =
      ("paracore " ++ version_string)
      ∷ ("hardware threads: " ++ shown (hardware_concurrency hardware))
      ∷ ("cache line (assumed): " ++ (shown cache_line ++ " bytes"))
      ∷ rest

  -- The lines after the Mutex.
  unfoldable pub unbuilt : List String
  unfolding pool_text to_string
  unbuilt =
      ("exec/pool.hpp ... " ++ pool_text (create_pool 0 128))
      ∷ ("ds/queue.hpp ... "
          ++ to_string ((michael_scott_queue {A = ℕ}).push 1 new_michael_scott).0)
      ∷ ""
      ∷ "run `make progress` to see the whole build plan."
      ∷ []

  -- `main`, as thread `t`: what it has printed, and how it ends. `pthread_mutex_init` returns `rc`
  -- and makes `m`; the `lock_guard` gives the lock back at the end of its block.
  unfoldable pub main :
      (os : Errno) (p : Pthread) (rc : ℕ) → p.Mutex → ℕ → List String × Outcome (Unit {0})
  unfolding greeting unbuilt Mutex.construct
  main os p rc m t = elim (Mutex.construct os rc >> Mutex.lock os p t m) [
    | Outcome.returns m' ↦
        let ok : String = "core/mutex.hpp ... ok" in
        elim (Mutex.unlock os p t m') [
          | Outcome.returns m'' ↦ (greeting (ok ∷ unbuilt), Outcome.returns tt)
          | Outcome.aborts w ↦ (greeting (ok ∷ []), Outcome.aborts w)
          | Outcome.blocks ↦ (greeting (ok ∷ []), Outcome.blocks)
        ]
    | Outcome.aborts w ↦ (greeting [], Outcome.aborts w)
    | Outcome.blocks ↦ (greeting [], Outcome.blocks)
  ]
