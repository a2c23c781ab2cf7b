-- ===== src/Stream.antt =====
-- crates/execution-stream/src/lib.rs: ordered, bounded observations. `Sequencer` numbers the items
-- of a producer, `Tracker` checks the numbers at a consumer, and the three buffers stand between.
pub mod Item
pub mod Sequencer
pub mod Tracker
pub mod Lossless
pub mod Lossy
pub mod Coalescing
mod Tests
