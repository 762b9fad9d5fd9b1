-- ===== src/Runner.antt =====
-- The benchmark runner, ci-bench-runner/src/runner.rs.
pub mod Process
pub mod Commands
pub mod Checkout
pub mod Logs
