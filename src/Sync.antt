-- ===== src/Sync.antt =====
-- sync/: memory, Peterson's lock, the backoff, and the locks that are to be built.
pub mod Memory
pub mod Peterson
pub mod Atomic
pub mod Lockable
pub mod AnyLock
pub mod Spinlock
pub mod MutualExclusion
pub mod RwLock
pub mod Semaphore
