-- ===== src/Acl.antt =====
-- src/acl: the access control list of the server side.
pub mod Cidr
pub mod Filter
