-- ===== src/Suite/Plan.antt =====
-- tests/test_notbuilt.cpp: the build plan as tests. The plan is an argument, so that the tests can be
-- run on any; `modules` is the one of src/core/modules.cpp. A `double` is a type of its own.
pub mod Flip
pub mod Report
use paracore.Base.{ℕ, Option, none, Bool, true, false, List}
use paracore.Core.Status.{Status}
use paracore.Core.Modules.{Module, Row}
use paracore.Core.Barrier.{SenseBarrier, sense_barrier}
use paracore.Sync.MutualExclusion.{new_filter, new_bakery, filter_lock, bakery_lock}
use paracore.Sync.Spinlock.{new_mcs, new_tas, new_array, mcs_lock, tas_lock, array_lock}
use paracore.Exec.{create_pool, create_scheduler}
use paracore.Bench.{new_config, run_sweep}
use paracore.Ds.Set.{new_lazy, lazy_set}
use paracore.Ds.Queue.{new_michael_scott, new_spsc, michael_scott_queue, spsc_ring}
use paracore.Ds.Stack.{new_treiber, treiber_stack}
use paracore.Ds.Map.{new_striped, striped_map}
use paracore.Ds.SkipList.{lock_free_skip_list, new_priority_queue, priority_queue}
use paracore.Mem.Reclaim.{new_hazard, hazard_domain, new_leak, leak_domain}
use paracore.Suite.Asserts.{
  Test, ◌>>=◌, ◌>>◌, same_text, built_in, assert, assert_eq, assert_status, assert_ok, assert_err,
  assert_not_built,
}

-- A workload that does nothing.
abbrev no_work : ℕ → ℕ → ℕ
no_work id n = 0

-- No stream for the rows of the sweep, and no node.
abbrev no_stream : Option ℕ
no_stream = none

abbrev nullptr : Option ℕ
nullptr = none

-- The tests, by the module that they name.
pub data Numbered : Type 0 where
  m00 m01 m02 m03 m04 m05 m06 m07 m08 m09 m10 m11 : Numbered

abbrev pub subject : Numbered → Module
subject Numbered.m00 = Module.repo
subject Numbered.m01 = Module.memory_model
subject Numbered.m02 = Module.mutual_exclusion
subject Numbered.m03 = Module.spinlocks
subject Numbered.m04 = Module.monitors
subject Numbered.m05 = Module.bench_rig
subject Numbered.m06 = Module.sets
subject Numbered.m07 = Module.queues_stacks
subject Numbered.m08 = Module.reclamation
subject Numbered.m09 = Module.hash_maps
subject Numbered.m10 = Module.skip_lists
subject Numbered.m11 = Module.scheduler

-- The tests m00 and m01 expect their modules to be built, and the others theirs not to be.
abbrev pub expects_built : Numbered → Bool
expects_built Numbered.m00 = true
expects_built Numbered.m01 = true
expects_built n = false

module _ {Double : Type 0} (two_percent : Double) (rows : List Row) where
  unfoldable pub m02_mutual_exclusion_not_built : Test
  unfolding assert assert_not_built
  m02_mutual_exclusion_not_built =
      assert_not_built rows Module.mutual_exclusion
      >> assert "FilterLock::name()" (same_text (filter_lock.name (new_filter 1)) "filter")
      >> assert "BakeryLock::name()" (same_text (bakery_lock.name (new_bakery 1)) "bakery")

  unfoldable pub m03_spinlocks_not_built : Test
  unfolding assert assert_not_built
  m03_spinlocks_not_built =
      assert_not_built rows Module.spinlocks
      >> assert "McsLock::name()" (same_text (mcs_lock.name new_mcs) "mcs")
      >> assert "TasLock::name()" (same_text (tas_lock.name new_tas) "tas")
      >> assert "ArrayLock::name()" (same_text (array_lock.name (new_array 1)) "alock")

  unfoldable pub m04_pool_rwlock_semaphore_not_built : Test
  unfolding assert_err assert_not_built
  m04_pool_rwlock_semaphore_not_built =
      assert_not_built rows Module.monitors
      >> assert_err "ThreadPool::create(4, 64)" (create_pool 4 64) Status.not_built

  unfoldable pub m05_bench_rig_not_built : Test
  unfolding assert_err assert_not_built
  m05_bench_rig_not_built =
      let ran = run_sweep (new_config "empty" two_percent) no_work no_stream in
      assert_not_built rows Module.bench_rig >> assert_err "bench::run" ran.0 Status.not_built

  unfoldable pub m06_sets_not_built : Test
  unfolding assert_status assert_not_built
  m06_sets_not_built =
      assert_not_built rows Module.sets
      >> assert_status "s.add(1)" ((lazy_set {A = ℕ}).add 1 new_lazy).0 Status.not_built

  unfoldable pub m07_queues_and_stacks_not_built : Test
  unfolding assert_status assert_not_built
  m07_queues_and_stacks_not_built =
      assert_not_built rows Module.queues_stacks
      >> assert_status "q.push(1)" ((michael_scott_queue {A = ℕ}).push 1 new_michael_scott).0
          Status.not_built
      >> assert_status "st.push(1)" ((treiber_stack {A = ℕ}).push 1 new_treiber).0 Status.not_built
      >> assert_status "ring.try_push(1)" ((spsc_ring {A = ℕ}).push 1 (new_spsc 1024)).0
          Status.not_built

  -- A node is known by its pointer, and `none` is `nullptr`.
  unfoldable pub m08_reclamation_not_built : Test
  unfolding assert_status assert_ok assert_eq assert_not_built
  m08_reclamation_not_built =
      let (retired, leak) = leak_domain.retire nullptr new_leak in
      assert_not_built rows Module.reclamation
      >> assert_status "d.retire(nullptr)" (hazard_domain.retire nullptr (new_hazard 64)).0
          Status.not_built
      >> assert_ok "leak.retire(nullptr)" retired
      >> assert_eq "leak.retired_count()" "1" leak.retired 1

  unfoldable pub m09_hash_maps_not_built : Test
  unfolding assert_status assert_not_built
  m09_hash_maps_not_built =
      assert_not_built rows Module.hash_maps
      >> assert_status "m.put(1, 2)" ((striped_map {K = ℕ} {V = ℕ}).put 1 2 (new_striped 1024 64)).0
          Status.not_built

  unfoldable pub m10_barrier_skiplist_pqueue_not_built : Test
  unfolding assert_err assert_status assert_not_built
  m10_barrier_skiplist_pqueue_not_built =
      assert_not_built rows Module.skip_lists
      >> assert_err "b.arrive_and_wait()" (sense_barrier.arrive_and_wait (record { parties = 4 })).0
          Status.not_built
      >> assert_status "sl.add(1, 2)" ((lock_free_skip_list {K = ℕ} {V = ℕ}).add (1, 2) tt).0
          Status.not_built
      >> assert_status "pq.push(1, 2)"
          ((priority_queue {P = ℕ} {V = ℕ}).push 1 2 new_priority_queue).0 Status.not_built

  unfoldable pub m11_scheduler_not_built : Test
  unfolding assert_err assert_not_built
  m11_scheduler_not_built =
      assert_not_built rows Module.scheduler
      >> assert_err "Scheduler::create(4)" (create_scheduler 4) Status.not_built

  unfoldable pub m00_repo_is_built : Test
  unfolding assert built_in
  m00_repo_is_built = assert "is_built(Module::Repo)" (built_in rows Module.repo)

  unfoldable pub m01_memory_model_is_built : Test
  unfolding assert built_in
  m01_memory_model_is_built =
      assert "is_built(Module::MemoryModel)" (built_in rows Module.memory_model)

  abbrev pub body : Numbered → Test
  body Numbered.m00 = m00_repo_is_built
  body Numbered.m01 = m01_memory_model_is_built
  body Numbered.m02 = m02_mutual_exclusion_not_built
  body Numbered.m03 = m03_spinlocks_not_built
  body Numbered.m04 = m04_pool_rwlock_semaphore_not_built
  body Numbered.m05 = m05_bench_rig_not_built
  body Numbered.m06 = m06_sets_not_built
  body Numbered.m07 = m07_queues_and_stacks_not_built
  body Numbered.m08 = m08_reclamation_not_built
  body Numbered.m09 = m09_hash_maps_not_built
  body Numbered.m10 = m10_barrier_skiplist_pqueue_not_built
  body Numbered.m11 = m11_scheduler_not_built
