-- ===== src/Tests/Core.antt =====
-- Concrete runs of core/ and mem/.
pub mod Platform
mod Mutex
mod Threads
