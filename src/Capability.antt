-- ===== src/Capability.antt =====
-- crates/capability-graph/src: definitions of capabilities, and the resolver over them.
pub mod Definition
pub mod Resolver
mod Tests
