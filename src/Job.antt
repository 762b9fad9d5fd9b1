-- ===== src/Job.antt =====
-- The jobs that events trigger, ci-bench-runner/src/job/.
pub mod Files
pub mod Compare
pub mod Callgrind
pub mod Display
pub mod Thresholds
pub mod Split
pub mod World
pub mod Refs
pub mod Bench
pub mod Handlers
pub mod Main
