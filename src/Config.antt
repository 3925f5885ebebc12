-- ===== src/Config.antt =====
-- src/config: the values that tune the program.
pub mod Tuning
pub mod Runtime
