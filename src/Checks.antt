-- ===== src/Checks.antt =====
-- Concrete runs of every part, and each result at an input where its conditions hold.
mod AlertRuns
mod HeartbeatRuns
mod EscalationRuns
mod StartRuns
mod SpoolRuns
mod CertificateRuns
mod MonitorRuns
mod WiringRuns
mod SecurityRuns
mod SwarmRuns
mod UptimeRuns
