-- ===== src/Core.antt =====
-- core/: the error model, the build plan, thread ids, the blocking lock, barriers.
pub mod Status
pub mod Thread
pub mod Outcome
pub mod Modules
pub mod Mutex
pub mod Barrier
