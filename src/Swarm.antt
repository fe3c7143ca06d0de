-- ===== src/Swarm.antt =====
-- internal/swarm: the detector of services that crash in a loop.
pub mod CrashLoop
pub mod Nodes
pub mod Replicas
