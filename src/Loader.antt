-- ===== src/Loader.antt =====
-- crates/runtime-loader/src: exact module references, their text, and the catalog of modules.
pub mod Reference
pub mod Error
pub mod Text
pub mod Catalog
pub mod Resolve
mod Tests
