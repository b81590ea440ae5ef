-- ===== src/Tests.antt =====
-- Concrete runs of the code that the theorems speak of.
mod Sync
mod Core
mod Runner
mod Playground
mod Canary
mod Suite
