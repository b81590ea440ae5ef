-- ===== src/Exec.antt =====
-- exec/: the thread pool and the scheduler of exec/pool.hpp, exec/scheduler.hpp, src/exec/pool.cpp
-- and src/exec/scheduler.cpp, whose operations answer `Status::NotBuilt` or 0.
use paracore.Base.{ℕ}
use paracore.Core.Status.{Status, Result, fail}
use paracore.Core.Barrier.{Future}

pub data Shutdown : Type 0 where
  drain now : Shutdown

-- `impl_`, an `Impl` without members.
pub record ThreadPool : Type 0 where

pub record SchedulerStats : Type 0 where
  pub tasks_run : ℕ
  pub steals_attempted : ℕ
  pub steals_succeeded : ℕ
  pub parks : ℕ

pub record Scheduler : Type 0 where

-- `ThreadPool::create(workers, queue_capacity)`
abbrev pub create_pool : (workers queue_capacity : ℕ) → Result ThreadPool
unfolding fail
create_pool workers queue_capacity = fail Status.not_built

-- The members of ThreadPool; a job is a `Task`.
module _ {Task : Type 0} where
  abbrev pub submit : Task → ThreadPool → Result Future × ThreadPool
  unfolding fail
  submit f p = (fail Status.not_built, p)

  abbrev pub try_submit : Task → ThreadPool → Result Future × ThreadPool
  unfolding fail
  try_submit f p = (fail Status.not_built, p)

  abbrev pub submit_detached : Task → ThreadPool → Status × ThreadPool
  submit_detached t p = (Status.not_built, p)

abbrev pub wait_idle : ThreadPool → Status × ThreadPool
wait_idle p = (Status.not_built, p)

abbrev pub shutdown : Shutdown → ThreadPool → Result ℕ × ThreadPool
unfolding fail
shutdown mode p = (fail Status.not_built, p)

abbrev pub worker_count : ThreadPool → ℕ
worker_count p = 0

-- `Scheduler::create(workers)`
abbrev pub create_scheduler : ℕ → Result Scheduler
unfolding fail
create_scheduler workers = fail Status.not_built

-- The members of Scheduler.
module _ {Task : Type 0} where
  abbrev pub submit_outside : Task → Scheduler → Result Future × Scheduler
  unfolding fail
  submit_outside f s = (fail Status.not_built, s)

  abbrev pub spawn : Task → Scheduler → Result Future × Scheduler
  unfolding fail
  spawn f s = (fail Status.not_built, s)

abbrev pub scheduler_wait_idle : Scheduler → Status × Scheduler
scheduler_wait_idle s = (Status.not_built, s)

abbrev pub stats : Scheduler → Result SchedulerStats
unfolding fail
stats s = fail Status.not_built
