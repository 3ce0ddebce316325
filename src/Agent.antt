-- ===== src/Agent.antt =====
-- crates/agent: what one agent process keeps, and the operations on it.
pub mod Presence
pub mod Events
pub mod Jobs
pub mod Policy
pub mod Executor
pub mod Pace
pub mod Loop
