-- ===== src/Mem.antt =====
-- mem/: memory reclamation.
pub mod Reclaim
