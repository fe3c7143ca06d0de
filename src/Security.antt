-- ===== src/Security.antt =====
-- internal/security: the dangerous settings of containers, the scores, and the alerts on both.
pub mod Insights
pub mod Scoring
pub mod Categories
pub mod Scorer
pub mod Posture
