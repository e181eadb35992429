-- ===== src/Fleet.antt =====
-- worker/src/fleet: the registry that places mailboxes on the D1 shards of several accounts.
pub mod Contracts
pub mod Validation
pub mod Metrics
pub mod Placement
pub mod Registry
pub mod Parse
mod Tests
