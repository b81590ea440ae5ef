-- ===== src/Suite.antt =====
-- The tests of tests/test_core.cpp, tests/test_notbuilt.cpp and tests/test_peterson.cpp, the canaries
-- tests/canary_hang.cpp and tests/canary_raii.cpp, and tests/probe_lockfree.cpp.
pub mod Probe
pub mod Programs
pub mod Asserts
pub mod Plan
pub mod Core
pub mod Peterson
pub mod Locks
pub mod Handshake
