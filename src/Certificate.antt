-- ===== src/Certificate.antt =====
-- internal/certificate: monitors of TLS certificates, and when they alert.
pub mod Model
pub mod Thresholds
pub mod Service
