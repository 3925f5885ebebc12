-- ===== src/Tunnel.antt =====
-- src/tunnel: the lifetime of the QUIC streams that carry the tunnels.
pub mod Shutdown
pub mod Terminal
pub mod Lifetime
pub mod EventQueue
pub mod Sends
pub mod Dispatch
pub mod Buffer
pub mod Registry
