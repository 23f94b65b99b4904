-- ===== src/Job.antt =====
-- The durable job, crates/pstforge-job/src/lib.rs.
pub mod World
pub mod Checks
pub mod Publication
pub mod Triples
mod Tests
