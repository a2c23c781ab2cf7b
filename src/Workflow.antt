-- ===== src/Workflow.antt =====
-- crates/workflow-graph/src/lib.rs: the versioned workflow topology and the execution facts.
-- `Topology` and `Cycle` are its first half, `Graph` its operations, `Replay` the replay of its
-- logs; the other modules hold what is proved of them.
pub mod Topology
pub mod Cycle
pub mod Graph
pub mod Replay
mod Tests
