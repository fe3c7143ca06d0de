-- ===== src/Alert.antt =====
-- internal/alert: events, alerts, routing and the engine that keeps the active alerts.
pub mod Model
pub mod Csv
pub mod Deps
pub mod Routing
pub mod Silence
pub mod Engine
pub mod Down
