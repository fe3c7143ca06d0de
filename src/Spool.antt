-- ===== src/Spool.antt =====
-- internal/agent/spool.go and spool_store.go: the agent's outbound queue.
pub mod Model
pub mod Queue
pub mod Drain
