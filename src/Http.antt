-- ===== src/Http.antt =====
-- The handlers of HTTP requests, ci-bench-runner/src/lib.rs. The router, JSON and the server itself are
-- the frameworks'.
pub mod Handlers
pub mod Webhook
pub mod Served
pub mod Commits
pub mod Routes
