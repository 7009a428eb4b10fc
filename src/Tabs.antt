-- ===== src/Tabs.antt =====
-- extension/src/tabs.ts: the registry of project tab ids.
pub mod ProjectId
pub mod Registry
pub mod Operations
pub mod Maps
pub mod Tombstones
pub mod Death
pub mod Moves
pub mod Lifetimes
pub mod Restore
pub mod Restart
pub mod Worker
mod Tests
