-- ===== src/Split.antt =====
-- Splitting mail over output stores: crates/pstforge-core/src/split.rs.
pub mod Size
pub mod Prefix
mod Tests
