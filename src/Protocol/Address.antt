-- ===== src/Protocol/Address.antt =====
-- src/protocol/quic_address.cpp: the addresses of listeners and peers.
pub mod Endpoint
pub mod Slots
