-- ===== src/Suite/Peterson/Passes.antt =====
-- The two tests of two threads in tests/test_peterson.cpp end and pass.
use paracore.Base.{ℕ, ◌*◌, ◌^◌, ◌≤◌, ◌<◌, ◌≡◌, ◌∙◌, List, length, arith}
use paracore.Core.Thread.{ThreadIds}
use paracore.Sync.Peterson.Workers.{init, run_all, Through}
use paracore.Sync.Peterson.Workers.Through.{Windows, workers_end}
use paracore.Sync.Peterson.Workers.Counter.{counting, counting-Brief}
use paracore.Sync.Peterson.Workers.Owed.{all_counted}
use paracore.Sync.Peterson.Workers.Occupancy.{occupying, occupying-Brief, none_noted}
use paracore.Suite.Asserts.{Verdict}
use paracore.Suite.Peterson.{peterson_two_threads_counter, peterson_two_threads_occupancy}

-- `peterson_two_threads_counter` ends and passes: two workers that each take a new PetersonLock
-- `rounds` times around a plain `++counter`, with ids that are not 0 and differ and a sum that fits
-- a `long`, are both through with their loops after 34 times `rounds` schedules one after the
-- other, whatever the order of the accesses in each, if each of the two makes at least two accesses
-- in each; and then the assertion on the counter holds.
pub counter_test_passes :
    {ids : ℕ → ℕ}
    → ThreadIds 2 ids
    → (rounds : ℕ) (rs : List (List ℕ)) → 2 * rounds < 2 ^ 63
    → Windows rs
    → 34 * rounds ≤ length rs
    → Through counting 0 (run_all counting ids rs (init counting rounds))
      × Through counting 1 (run_all counting ids rs (init counting rounds))
      × (peterson_two_threads_counter rounds (run_all counting ids rs (init counting rounds))
          ≡ Verdict.passes tt)
unfolding peterson_two_threads_counter
counter_test_passes {ids} known rounds rs fits ws enough =
    let (a, b) = workers_end counting-Brief known rounds rs ws enough in
    let right : (run_all counting ids rs (init counting rounds)).state.counter ≡ 2 * rounds =
      all_counted known rounds rs ws a b ∙ omega (arith, fits) in
    (a, b, rw right (ground arith))

-- `peterson_two_threads_occupancy` ends and passes: two workers that each take a new PetersonLock
-- `rounds` times and count who is inside, with ids that are not 0 and differ, are both through with
-- their loops after 34 times `rounds` schedules one after the other, whatever the order of the
-- accesses in each, if each of the two makes at least two accesses in each; and then the assertion
-- that no overlap was noted holds.
pub occupancy_test_passes :
    {ids : ℕ → ℕ}
    → ThreadIds 2 ids
    → (rounds : ℕ) (rs : List (List ℕ)) → Windows rs
    → 34 * rounds ≤ length rs
    → Through occupying 0 (run_all occupying ids rs (init occupying rounds))
      × Through occupying 1 (run_all occupying ids rs (init occupying rounds))
      × (peterson_two_threads_occupancy (run_all occupying ids rs (init occupying rounds))
          ≡ Verdict.passes tt)
unfolding peterson_two_threads_occupancy
occupancy_test_passes {ids} known rounds rs ws enough =
    let (a, b) = workers_end occupying-Brief known rounds rs ws enough in
    (a, b, rw (none_noted known rounds rs ws) (ground arith))
