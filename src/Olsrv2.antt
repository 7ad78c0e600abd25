-- ===== src/Olsrv2.antt =====
-- The routing protocol: src-plugins/olsrv2/olsrv2.
pub mod Routing
pub mod Dijkstra
pub mod Search
pub mod Kernel
pub mod Update
pub mod Originator
mod Examples
