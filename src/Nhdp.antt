-- ===== src/Nhdp.antt =====
-- The neighbourhood discovery: src-plugins/nhdp.
pub mod Hysteresis
pub mod Olsrv1
pub mod Database
pub mod Mpr
mod Examples
