-- ===== src/EventQueue.antt =====
-- The event queue, ci-bench-runner/src/event_queue.rs.
pub mod Views
pub mod Worker
pub mod Toggler
pub mod Steps
