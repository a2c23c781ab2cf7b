-- ===== src/Recovery/Durable.antt =====
-- crates/workflow-recovery/src/durable.rs: the durable facts of a run, the commits that record them,
-- and the store in memory.
pub mod Facts
pub mod Same
pub mod State
pub mod Apply
pub mod Ledger
pub mod Snapshot
pub mod Step
pub mod Index
pub mod Keeps
pub mod Consistent
pub mod Books
pub mod Steps
pub mod Accepts
pub mod Commit
pub mod Recorded
pub mod Restore
pub mod Advance
pub mod Calls
pub mod Transactions
pub mod Cancelled
pub mod View
pub mod Reached
pub mod Tests
pub mod Sound
pub mod Complete
pub mod Store
