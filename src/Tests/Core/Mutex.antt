-- ===== src/Tests/Core/Mutex.antt =====
-- A mutex that thread 1 holds, and waits on a condition variable.
use paracore.Base.{ℕ, ◌≡◌, ◌↔◌, ◌<◌, true, false, none, some, List, [], ◌∷◌, arith}
use paracore.Base.Int.{pos}
use paracore.Core.Outcome.{Outcome, ◌>>=◌}
use paracore.Core.Mutex.Checked.{foreign_unlock}
use paracore.Core.Mutex.CondVar.{Timespec, Round, deadline, wait_for, wait, wait}
use paracore.Core.Mutex.CondVar.Deadline.{nanoseconds, deadline_lem}
use paracore.Core.Mutex.CondVar.Rounds.{
  EndsBy, Woken, Late, AllGoOn, wait_for_iff, WaitsFit, wait_for-WaitsFit, Stops, wait-returns_iff,
}
use paracore.Core.Mutex.Trace
use paracore.Core.Mutex.Trace.{mutex_of, with_owner, mutex-run}
use paracore.Sync.Lockable.{Call}
use paracore.Tests.Core.Platform.{linux, linux-IsErrno, checking, checking-ErrorChecking}

-- 0.9 s into a second, and a timeout of 1500 ms.
abbrev clock : Timespec
clock = record { tv_sec = 7; tv_nsec = 900000000 }

deadline_lem_example :
    ((deadline clock (pos 1500)).tv_nsec < 1000000000)
    × (nanoseconds (deadline clock (pos 1500)) ≡ 9400000000)
deadline_lem_example = deadline_lem clock (pos 1500) (omega arith)

-- The predicate fails before the deadline, and holds after it.
abbrev early : Round
early = record { stop = false; now = 10; at_deadline = false }

abbrev woken : Round
woken = record { stop = false; now = 100; at_deadline = true }

abbrev late : Round
late = record { stop = false; now = 100; at_deadline = false }

-- The predicate fails, and holds after a wait.
wait-returns_iff_example :
    (wait linux ((false, 0) ∷ (true, 0) ∷ []) ≡ Outcome.returns tt)
    ↔ Stops ((false, 0) ∷ (true, 0) ∷ [])
wait-returns_iff_example = wait-returns_iff linux ((false, 0) ∷ (true, 0) ∷ [])

-- One wait, of 4 ms, ahead of the deadline after 5.999999 ms.
abbrev later : Round
later = record { stop = false; now = 6000000; at_deadline = false }

wait_for-WaitsFit_example :
    WaitsFit 5999999
      (record early { now = 1000 } ∷ later ∷ [])
      (wait_for 5999999 (record early { now = 1000 } ∷ later ∷ [])).1
wait_for-WaitsFit_example = wait_for-WaitsFit 5999999 (record early { now = 1000 } ∷ later ∷ [])

wait_for_iff_example :
    (((wait_for 50 (early ∷ woken ∷ [])).0 ≡ some true) ↔ EndsBy (Woken 50) 50 (early ∷ woken ∷ []))
    × (((wait_for 50 (early ∷ woken ∷ [])).0 ≡ some false)
        ↔ EndsBy (Late 50) 50 (early ∷ woken ∷ []))
    × (((wait_for 50 (early ∷ woken ∷ [])).0 ≡ none) ↔ AllGoOn 50 (early ∷ woken ∷ []))
wait_for_iff_example = wait_for_iff 50 (early ∷ woken ∷ [])

-- Thread 1 takes the lock, thread 2 finds it taken, thread 1 frees it, and thread 2 frees it again.
abbrev some_calls : List (ℕ × Call)
some_calls = (1, Call.lock) ∷ (2, Call.try_lock) ∷ (1, Call.unlock) ∷ (2, Call.unlock) ∷ []

mutex-run_example :
    (Trace.run (mutex_of linux checking) some_calls none >>= with_owner (λ m. m))
    ≡ Outcome.aborts (foreign_unlock linux)
unfolding Trace.run
mutex-run_example = mutex-run linux-IsErrno checking-ErrorChecking some_calls none
