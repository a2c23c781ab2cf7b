-- ===== src/Recovery.antt =====
-- crates/workflow-recovery/src: the facts that survive a crash and what is decided from them. `Model`
-- is model.rs, `Journal` journal.rs and `Classify` recovery.rs.
pub mod Model
pub mod Journal
pub mod Classify
pub mod Durable
pub mod Physical
mod Tests
