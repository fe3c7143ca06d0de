-- ===== src/Escalation.antt =====
-- internal/alert/escalation: policies, and the runs that escalate an alert level by level.
pub mod Model
pub mod Filters
pub mod Overlap
pub mod Store
pub mod Runner
pub mod Cycle
pub mod Hooks
pub mod Steps
pub mod Stops
pub mod Starts
