-- ===== src/Wiring.antt =====
-- The callbacks of internal/app/wiring.go that hand the events of the monitors to the alert engine.
pub mod Certificates
pub mod Heartbeats
