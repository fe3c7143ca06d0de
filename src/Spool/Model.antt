-- ===== src/Spool/Model.antt =====
-- The state of an enabled spool (internal/agent/spool.go) and of its file
-- (internal/agent/spool_store.go). A payload is its bytes.
use pulseboard.Common.{ℕ, String, Bool, Option, List, [], ◌∷◌, ◌+◌, length}

pub record SpoolConfig : Type 0 where
  pub max_memory_bytes : ℕ
  pub max_disk_bytes : ℕ

pub record PendingEvent : Type 0 where
  pub event_id : String
  pub observed_at : ℕ
  pub payload : List ℕ

-- A row of spool_events.
pub record SpooledEvent : Type 0 where
  pub seq : ℕ
  pub event : PendingEvent

-- `last_seq` is the number that AUTOINCREMENT gave last, `batch` what the drain has read and not yet
-- sent, and `handled` the rows that it has passed: sent on a stream, or dropped as unreadable.
pub record Spool : Type 0 where
  pub buf : List PendingEvent
  pub buf_bytes : ℕ
  pub has_store : Bool
  pub rows : List SpooledEvent
  pub last_seq : ℕ
  pub dropped : ℕ
  pub dropped_since_connect : ℕ
  pub attached : Bool
  pub send_seq : ℕ
  pub ack_seq : ℕ
  pub paused_until : ℕ
  pub batch : List SpooledEvent
  pub handled : List ℕ

-- What the calls of the file answer during one operation: the size, or none for an error.
-- `count_fails` says that a delete was made and what follows it, the reclaim of pages or the count,
-- failed.
pub record StoreAnswers : Type 0 where
  pub append_fails : Bool
  pub size : Option ℕ
  pub delete_fails : Bool
  pub count_fails : Bool

abbrev pub bytes_of : List PendingEvent → ℕ
bytes_of [] = 0
bytes_of (e ∷ es) = length e.payload + bytes_of es
