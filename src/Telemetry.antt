-- ===== src/Telemetry.antt =====
-- components/croniot/src/telemetry: the uplink's decisions.
pub mod Scheduler
pub mod Retry
pub mod Uplink
mod Tests
