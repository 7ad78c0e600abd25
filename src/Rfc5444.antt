-- ===== src/Rfc5444.antt =====
-- Time and metric values of RFC 5497 and RFC 7181, and sequence number arithmetic:
-- src-plugins/subsystems/rfc5444/rfc5444.c.
pub mod Halving
pub mod TimeTlv
pub mod Metric
pub mod Seqno
mod Examples
