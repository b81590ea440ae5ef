-- ===== src/Lib.antt =====
-- Paracore: a C++ library of locks, monitors and parallel data structures, of which the error
-- model, the blocking lock, thread ids, Peterson's lock and the backoff are built, and all else is
-- a stub that says so.
--
-- Parts, and the code that they model (paths from the repository's root):
--   Core/Status, Core/Modules   the error model and the build plan: core/status.hpp,
--                               src/core/status.cpp, src/core/modules.cpp
--   Core/Thread                 thread ids, cores and pinning: core/thread.hpp, src/core/thread.cpp
--   Core/Mutex, Core/Mutex/CondVar
--                               Mutex and CondVar: core/mutex.hpp, src/core/mutex.cpp
--   Core/Barrier                core/barrier.hpp and Future of core/task.hpp
--   Sync/Memory                 the accesses of std::atomic, and two machines that make them
--   Sync/Peterson               PetersonLock: sync/peterson_lock.hpp, src/sync/peterson_lock.cpp;
--                               Sync/Peterson/Guarded and Sync/Peterson/Occupied are the blocks of
--                               the workers of tests/test_peterson.cpp, and Sync/Peterson/Workers
--                               their loops
--   Sync/Atomic                 Backoff, CacheAligned and the fences of sync/atomic.hpp
--   Sync/Lockable, Sync/AnyLock the concepts of sync/lockable.hpp, AnyLock of sync/spinlock.hpp
--   Sync/Spinlock, Sync/MutualExclusion, Sync/RwLock, Sync/Semaphore
--                               the locks that are stubs: sync/spinlock.hpp,
--                               sync/mutual_exclusion.hpp, sync/rwlock.hpp, sync/semaphore.hpp
--   Playground/Litmus           playground/litmus_sb.cpp, playground/litmus_sb_relaxed.cpp
--   Playground/Adders, Playground/Lines, Playground/Reports
--                               playground/counter.cpp, playground/falsesharing.cpp,
--                               playground/bench_false_sharing.cpp
--   Playground/Hello            playground/hello.cpp
--   Ds                          ds/*.hpp and ds/detail/*.hpp
--   Mem/Reclaim                 mem/reclaim.hpp, mem/detail/reclaim_impl.hpp
--   Exec                        exec/*.hpp, src/exec/*.cpp
--   Bench                       bench/bench.hpp, src/bench/bench.cpp
--   Runner                      tests/para_test.hpp, tests/para_test.cpp: its loops, and in
--                               Runner/Main its `main` as a whole
--   Canary                      tests/canary_deadlock.cpp; Canary/Race is tests/canary_race.cpp
--   Suite                       the tests: Suite/Asserts the macros of tests/para_test.hpp, Suite/Plan
--                               tests/test_notbuilt.cpp, Suite/Core and Suite/Handshake
--                               tests/test_core.cpp, Suite/Peterson tests/test_peterson.cpp, and
--                               Suite/Locks the tests of one Mutex with tests/canary_hang.cpp and
--                               tests/canary_raii.cpp, as programs of Suite/Programs
--   Version                     the constants of include/paracore.hpp
--   Tests                       concrete runs
--
-- How they meet: a PetersonLock knows its threads by `thread_id()`. The interface between the two
-- is Core.Thread.ThreadIds, a hypothesis of the theorems on the lock.
-- Core.Mutex.Trace.owned, a lock with an owner or none, is the contract that both Mutex and
-- PetersonLock are held against; Canary, Suite.Locks and Suite.Handshake stand on the contract, and
-- Sync.Peterson.Guarded and Sync.Peterson.Occupied on the code of PetersonLock. The loop of a worker is
-- written once, for a Sync.Peterson.Workers.Body, and what it needs of the block is the interface
-- Sync.Peterson.Workers.Brief, which both blocks fill. Suite.Plan calls the
-- stubs of all parts, and meets Runner in how the child of a test ends.
-- Every call that can end the program gives a Core.Outcome: it returns, aborts with a text, or
-- blocks. Pthread calls, errno numbers, the clock and the standard library's number of cores are
-- parameters, with what POSIX documents of them as named hypotheses (Core.Mutex.ErrorChecking,
-- Core.Status.IsErrno).
--
-- Concurrency: the code of PetersonLock is written once, as the atomic access that a thread makes
-- next and the place where it goes with the value (`access`, `proceed`). System interleaves any
-- number of threads on one memory; Buffered gives each thread a first-in first-out buffer of
-- stores, as x86 processors have, with the orderings of the stores of `flag_` and of
-- `victim_` as a parameter. Solo has
-- `get_or_assign_index`, `lock` and `unlock` as plain functions of the members. No loop runs on
-- fuel: `k` in a theorem on undisturbed calls is a number of accesses that the theorem gives.
--
-- Machine integers: `unsigned` has 32 bits, `size_t` and `uint64_t` 64, and their sums are taken
-- modulo 2 ^ 32 and 2 ^ 64, as are `now_ns` and the deadline of the watchdog. The readings of the
-- platform's clock and the timeouts of CondVar are unbounded numbers, since the platform keeps them
-- far below the bounds of their types.
--
-- The test runner is a function of what it meets: how each poll of a child ends, how the call of a
-- test goes, and what `strtoul` and `find` answer are arguments. A list of polls or rounds that runs
-- out is a loop that goes on. Under `--no-fork` the call is made in the process of the runner: a
-- failure (`_exit(1)` in `fail`), another exit or a signal ends that process, so `main` can end in
-- the middle of its loops (Runner/Main). Runner has the same loops over the outcomes of their
-- rounds, which Runner/Report reads too.
--
-- The programs of Suite.Programs are searched through to as many steps as they have statements, which
-- is as many as they can make. In Canary and Suite.Handshake a waiting thread wakes by a notification
-- or unasked, and the number of times that it wakes unasked is counted.
--
-- Not modelled: what the test runner writes to stderr, the texts of the canaries, destructors that only pass on a
-- platform call, `yield`, tests/canary_leak.cpp, which only leaves an allocation behind, and the compile-time test of
-- tests/test_core.cpp. The stubs of the readers-writer locks, the semaphore, the epoch domain and the
-- futures, AnyLock, which passes calls on, and the `operator==` of TaggedPtr are written down, and have no
-- theorems.
pub mod Base
pub mod Core
pub mod Sync
pub mod Playground
pub mod Ds
pub mod Mem
pub mod Exec
pub mod Bench
pub mod Runner
pub mod Canary
pub mod Suite
pub mod Version
pub mod Tests
