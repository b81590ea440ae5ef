-- ===== src/Ds.antt =====
-- ds/: the parallel data structures. All of them are stubs: their members are laid out, and every
-- operation answers `Status::NotBuilt`, 0 or `false`.
pub mod Client
pub mod Container
pub mod Keyed
pub mod Stack
pub mod Queue
pub mod Set
pub mod Map
pub mod SkipList
pub mod Traces
