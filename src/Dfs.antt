-- ===== src/Dfs.antt =====
-- What the depth-first searches of the workflow graph and of the capability graph share.
pub mod Path
pub mod Marks
