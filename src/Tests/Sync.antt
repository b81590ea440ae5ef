-- ===== src/Tests/Sync.antt =====
-- Concrete runs of sync/ and playground/.
mod Peterson
mod Calls
mod Machines
mod Schedules
