-- ===== src/Container.antt =====
-- internal/container: how much of a time a container was up.
pub mod Uptime
