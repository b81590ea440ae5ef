-- ===== src/Suite/Plan/Flip.antt =====
-- What the tests say of a build plan.
use paracore.Base.{◌≡◌, ◌↔◌, List, arith}
use paracore.Core.Modules.{Module, Row}
use paracore.Suite.Asserts.{Passes, built_in}
use paracore.Core.Status.{fail}
use paracore.Suite.Asserts.Pass.{not_built_iff, Passes-then}
use paracore.Suite.Plan.{
  Numbered, subject, expects_built, body, m02_mutual_exclusion_not_built, m03_spinlocks_not_built,
  m04_pool_rwlock_semaphore_not_built, m05_bench_rig_not_built, m06_sets_not_built,
  m07_queues_and_stacks_not_built, m08_reclamation_not_built, m09_hash_maps_not_built,
  m10_barrier_skiplist_pqueue_not_built, m11_scheduler_not_built, m00_repo_is_built,
  m01_memory_model_is_built,
}

-- On any build plan, each test of test_notbuilt.cpp, with all of its calls on the stubs, passes
-- exactly when the plan has the module of its number as the test expects it: built for 0 and 1, and
-- not built for 2 to 11. So a test fails as soon as the row of its module is flipped, and the row of
-- another does not matter to it.
pub test_plan_iff :
    {Double : Type 0} (two_percent : Double) (rows : List Row) (n : Numbered)
    → Passes (body two_percent rows n) ↔ (built_in rows (subject n) ≡ expects_built n)
unfolding fail m02_mutual_exclusion_not_built m03_spinlocks_not_built
    m04_pool_rwlock_semaphore_not_built m05_bench_rig_not_built m06_sets_not_built
    m07_queues_and_stacks_not_built m08_reclamation_not_built m09_hash_maps_not_built
    m10_barrier_skiplist_pqueue_not_built m11_scheduler_not_built m00_repo_is_built
    m01_memory_model_is_built
test_plan_iff two_percent rows Numbered.m00 = ground arith
test_plan_iff two_percent rows Numbered.m01 = ground arith
test_plan_iff two_percent rows Numbered.m02 =
    Passes-then _ _ (Passes-then _ _ (not_built_iff rows Module.mutual_exclusion) tt) tt
test_plan_iff two_percent rows Numbered.m03 =
    Passes-then _ _ (Passes-then _ _ (Passes-then _ _ (not_built_iff rows Module.spinlocks) tt) tt)
      tt
test_plan_iff two_percent rows Numbered.m04 =
    Passes-then _ _ (not_built_iff rows Module.monitors) tt
test_plan_iff two_percent rows Numbered.m05 =
    Passes-then _ _ (not_built_iff rows Module.bench_rig) tt
test_plan_iff two_percent rows Numbered.m06 = Passes-then _ _ (not_built_iff rows Module.sets) tt
test_plan_iff two_percent rows Numbered.m07 =
    Passes-then _ _
      (Passes-then _ _ (Passes-then _ _ (not_built_iff rows Module.queues_stacks) tt) tt) tt
test_plan_iff two_percent rows Numbered.m08 =
    Passes-then _ _
      (Passes-then _ _ (Passes-then _ _ (not_built_iff rows Module.reclamation) tt) tt) tt
test_plan_iff two_percent rows Numbered.m09 =
    Passes-then _ _ (not_built_iff rows Module.hash_maps) tt
test_plan_iff two_percent rows Numbered.m10 =
    Passes-then _ _ (Passes-then _ _ (Passes-then _ _ (not_built_iff rows Module.skip_lists) tt) tt)
      tt
test_plan_iff two_percent rows Numbered.m11 =
    Passes-then _ _ (not_built_iff rows Module.scheduler) tt
