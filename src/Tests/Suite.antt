-- ===== src/Tests/Suite.antt =====
-- Runs of the tests and canaries, with the errno numbers of Linux.
use paracore.Base.{
  ℕ, zero, suc, List, ◌+◌, ◌*◌, ◌≤◌, ◌≡◌, ◌≢◌, ◌↔◌, refl, some, true, false, [], ◌∷◌, ◌++◌, arith,
}
use paracore.Core.Outcome.{Aborts}
use paracore.Core.Modules.{Module, modules}
use paracore.Runner.{Outcome as Ending, Poll, Watched, run_forked}
use paracore.Suite.Asserts.{exit_of, built_in}
use paracore.Suite.Plan.{Numbered, body}
use paracore.Suite.Plan.Report.{plan_reported}
use paracore.Suite.Programs.{
  Statement, Program, execute, advance_main, Runs, by_main, advance_child, by_child, done,
}
use paracore.Suite.Programs.Explore.{left}
use paracore.Suite.Locks.{Test, code_of, Hung, code_of_canary}
use paracore.Suite.Locks.Orders.{is_well, is_hung, tests_pass, canaries_hang}
use paracore.Suite.Handshake
use paracore.Suite.Handshake.{Setter, Waiter, Handshake, step_setter, step_waiter}
use paracore.Suite.Handshake.Awaited.{GoesOn, no_wakeup_lost}
use paracore.Core.Thread.{ThreadIds}
use paracore.Sync.Peterson.Workers
use paracore.Sync.Peterson.Workers.{Through}
use paracore.Sync.Peterson.Workers.Through.{Windows}
use paracore.Sync.Peterson.Workers.Counter.{counting}
use paracore.Sync.Peterson.Workers.Occupancy.{occupying}
use paracore.Suite.Asserts.{Verdict}
use paracore.Suite.Peterson.{peterson_two_threads_counter, peterson_two_threads_occupancy}
use paracore.Suite.Peterson.Passes.{counter_test_passes, occupancy_test_passes}
use paracore.Tests.Core.Platform.{linux}

-- The test sleeps, and the setter has not begun.
abbrev sleeping : Handshake
sleeping = record Handshake.init { waiter = Waiter.asleep }

sleeping-Reach : Handshake.Reach linux Handshake.init 2 0 sleeping
unfolding step_waiter
sleeping-Reach = Handshake.steps_waiter (Handshake.steps_waiter Handshake.begins refl) refl

no_wakeup_lost_example :
    (Waiter.asleep ≢ Waiter.failed)
    × GoesOn linux sleeping
    × (¬ Aborts (step_setter linux Setter.lock sleeping))
    × (¬ Aborts (step_waiter linux Waiter.asleep sleeping))
    × (◌≤◌ 2 (12 + 2 * 0))
no_wakeup_lost_example = no_wakeup_lost linux sleeping-Reach

-- `main` holds the lock, and waits for the thread that it has started, which cannot have it.
abbrev hanging : Program
hanging = record (code_of_canary Hung.never_unlocked) {
  owner = some 1;
  started = true;
  main = Statement.join ∷ Statement.print "this line must never be reached\n" ∷ [];
}

hanging-Runs : Runs linux 2 (code_of_canary Hung.never_unlocked) hanging
unfolding execute advance_main
hanging-Runs = by_main refl (by_main refl done)

canaries_hang_example :
    (is_hung linux hanging ≡ true) × (2 + left hanging ≤ left (code_of_canary Hung.never_unlocked))
canaries_hang_example = canaries_hang linux Hung.never_unlocked hanging-Runs

-- The thread has found the lock taken, and `main` can join it.
abbrev noted : Program
noted = record (code_of Test.tries_held) {
  owner = some 1;
  was_busy = true;
  started = true;
  main = Statement.join ∷ Statement.assert_noted ∷ Statement.unlock ∷ [];
  child = [];
}

noted-Runs : Runs linux 3 (code_of Test.tries_held) noted
unfolding execute advance_main advance_child
noted-Runs = by_main refl (by_main refl (by_child refl done))

tests_pass_example :
    (is_well linux noted ≡ true) × (3 + left noted ≤ left (code_of Test.tries_held))
tests_pass_example = tests_pass linux Test.tries_held noted-Runs

-- The test of module 4, with a poll that a signal interrupts.
plan_reported_example :
    let polls =
      (Poll.interrupted ∷ [])
      ++ (Poll.ended (exit_of (body {Double = ℕ} 2 modules Numbered.m04)) ∷ []) in
    ((run_forked true 1000 500 polls ≡ Watched.result Ending.pass)
      ↔ (built_in modules Module.monitors ≡ false))
    × ((run_forked true 1000 500 polls ≡ Watched.result Ending.fail)
        ↔ (built_in modules Module.monitors ≢ false))
plan_reported_example =
    plan_reported {Double = ℕ} 2 modules Numbered.m04 1000 500 (Poll.interrupted ∷ []) (omega arith)
      (tt, tt)

-- Two workers with one round each, of which now the one and now the other makes two accesses.
abbrev by_turns : ℕ → List (List ℕ)
by_turns zero = []
by_turns (suc k) = (0 ∷ 0 ∷ 1 ∷ 1 ∷ []) ∷ by_turns k

by_turns-Windows : (k : ℕ) → Windows (by_turns k)
by_turns-Windows zero = tt
by_turns-Windows (suc k) = (
  ((omega arith, (omega arith, (omega arith, (omega arith, tt)))), omega arith, omega arith),
  by_turns-Windows k,
)

abbrev worker_ids : ℕ → ℕ
worker_ids t = suc t

worker_ids-ThreadIds : ThreadIds 2 worker_ids
worker_ids-ThreadIds = record { named = λ t lt. omega arith; distinct = λ t u ht hu e. omega arith }

counter_test_passes_example :
    Through counting 0 (Workers.run_all counting worker_ids (by_turns 34) (Workers.init counting 1))
    × Through counting 1
        (Workers.run_all counting worker_ids (by_turns 34) (Workers.init counting 1))
    × (peterson_two_threads_counter 1
          (Workers.run_all counting worker_ids (by_turns 34) (Workers.init counting 1))
        ≡ Verdict.passes tt)
counter_test_passes_example =
    counter_test_passes worker_ids-ThreadIds 1 (by_turns 34) (omega arith) (by_turns-Windows 34)
      (omega arith)

occupancy_test_passes_example :
    Through occupying 0
      (Workers.run_all occupying worker_ids (by_turns 34) (Workers.init occupying 1))
    × Through occupying 1
        (Workers.run_all occupying worker_ids (by_turns 34) (Workers.init occupying 1))
    × (peterson_two_threads_occupancy
          (Workers.run_all occupying worker_ids (by_turns 34) (Workers.init occupying 1))
        ≡ Verdict.passes tt)
occupancy_test_passes_example =
    occupancy_test_passes worker_ids-ThreadIds 1 (by_turns 34) (by_turns-Windows 34) (omega arith)
