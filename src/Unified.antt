-- ===== src/Unified.antt =====
-- worker/src/unified: the parts of the unified mailbox that keep a shard's work together.
pub mod ShardMap
pub mod Lockout
pub mod Merge
pub mod Pages
mod Tests
