-- ===== src/Netcheck.antt =====
-- Package internal/netcheck: long-term connection measurements.
pub mod Types
pub mod Stats
pub mod Agg
pub mod Trace
pub mod Minute
pub mod Idle
pub mod Dns
pub mod Hosts
pub mod Store
pub mod Upload
