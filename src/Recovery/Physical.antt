-- ===== src/Recovery/Physical.antt =====
-- crates/workflow-recovery/src/physical.rs: the rows of the file store, and its transactions.
pub mod Format
pub mod RoundTrip
pub mod File
pub mod Refines
pub mod Tests
