-- ===== src/Runtime.antt =====
-- crates/runtime-core/src: the declarative definition of a run.
pub mod Definition
pub mod Identity
mod Tests
pub mod Collected
pub mod Keyed
pub mod Depends
pub mod Waits
pub mod Accepted
pub mod Validated
pub mod Validation
