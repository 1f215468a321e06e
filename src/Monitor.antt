-- ===== src/Monitor.antt =====
-- The health monitor: internal/monitor.
pub mod Probe
mod Examples
