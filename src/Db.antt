-- ===== src/Db.antt =====
-- The database component, ci-bench-runner/src/db.rs.
pub mod Schema
pub mod Events
pub mod Results
pub mod Comparisons
pub mod Comments
pub mod Writes
