-- ===== src/Quota.antt =====
-- worker/src/core: the quota telemetry of the D1 databases.
pub mod Coordinator
pub mod Telemetry
mod Tests
