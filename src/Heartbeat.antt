-- ===== src/Heartbeat.antt =====
-- internal/heartbeat: passive monitors that a job pings, their deadlines and their alerts.
pub mod Model
pub mod Pings
pub mod Deadlines
pub mod Limits
