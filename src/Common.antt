-- ===== src/Common.antt =====
-- Data structures of src-api/common that the other parts use: keyed trees, network addresses, prefixes
-- and access control lists of them.
pub mod Tree
pub mod Netaddr
pub mod Subnet
pub mod Acl
pub mod Avl
mod Examples
