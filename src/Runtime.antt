-- ===== src/Runtime.antt =====
-- src/runtime: what runs beside the relays.
pub mod ThreadPool
