-- ===== src/Playground.antt =====
-- playground/: the litmus test of the memory model, and the measuring programs.
pub mod Litmus
pub mod Adders
pub mod Lines
pub mod Hello
pub mod Reports
