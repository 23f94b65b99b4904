-- ===== src/Writer.antt =====
-- The store writer, crates/pstforge-pst/src/writer.rs.
pub mod Error
pub mod Extent
pub mod FreeSlots
pub mod Block
pub mod BTree
pub mod Projection
pub mod Stream
pub mod DataTree
pub mod Properties
pub mod RowMatrix
pub mod Subnodes
mod Tests
