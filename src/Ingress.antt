-- ===== src/Ingress.antt =====
-- src/ingress: the local proxy front ends, and how they authenticate their clients.
pub mod Request
pub mod Auth
pub mod Socks5
pub mod Http
pub mod HttpAuth
pub mod State
