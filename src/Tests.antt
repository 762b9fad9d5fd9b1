-- ===== src/Tests.antt =====
-- Concrete inputs: tests of the definitions, and an instance of every theorem that has hypotheses.
mod World
mod Queue
mod Web
mod Jobs
mod Measurements
mod Storage
mod Running
mod Reports
mod Program
mod Commented
mod Startup
mod Links
