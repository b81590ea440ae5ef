-- ===== src/Sync/Peterson/Invariant.antt =====
-- What the members of a PetersonLock and the places of its threads have to do with one another.
mod Defs
mod Moves
mod Pairs
mod Steps
pub use Defs.*
pub use Moves.*
pub use Pairs.*
pub use Steps.*
