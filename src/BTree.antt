-- ===== src/BTree.antt =====
-- The ordered collections of Rust's standard library that the kernel's state is made of:
-- `BTreeMap` (Map) and `BTreeSet` (Set), as lists in the order of their keys.
pub mod Map
pub mod Set
pub mod Keys
