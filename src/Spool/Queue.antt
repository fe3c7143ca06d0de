-- ===== src/Spool/Queue.antt =====
-- Send, flush and the two budgets of internal/agent/spool.go: how an event gets into the file.
pub mod Conservation
use pulseboard.Common.{
  ℕ, zero, suc, ◌+◌, ◌-◌, ◌/◌, Bool, true, false, not, ◌||◌, ◌&&◌, Option, none, some, List, [],
  ◌∷◌, ◌++◌, ltb, leb, eqb, length, if◌then◌else◌,
}
use pulseboard.Spool.Model.{SpoolConfig, PendingEvent, SpooledEvent, Spool, StoreAnswers, bytes_of}

abbrev pub spool_drop_scan_limit : ℕ
spool_drop_scan_limit = 50000

-- Append numbers the batch from `seq` on.
abbrev pub numbered : ℕ → List PendingEvent → List SpooledEvent
numbered seq [] = []
numbered seq (e ∷ es) = record { seq = seq; event = e } ∷ numbered (suc seq) es

-- DeleteOldestBytes: the oldest rows, of the first `limit`, as long as those before free less than
-- the target.
abbrev pub delete_oldest_bytes : ℕ → ℕ → ℕ → List SpooledEvent → List SpooledEvent
delete_oldest_bytes zero freed target rows = rows
delete_oldest_bytes (suc limit) freed target [] = []
delete_oldest_bytes (suc limit) freed target (r ∷ rows) =
    let rest = delete_oldest_bytes limit (freed + length r.event.payload) target rows in
    if ltb freed target then rest else r ∷ rows

-- How many rows the statement removed.
abbrev pub removed : List SpooledEvent → List SpooledEvent → ℕ
removed before after = length before - length after

abbrev pub trim_buf : ℕ → ℕ → List PendingEvent → List PendingEvent
trim_buf budget bytes [] = []
trim_buf budget bytes (e ∷ es) =
    let rest = trim_buf budget (bytes - length e.payload) es in
    if ltb budget bytes then rest else e ∷ es

-- trimMemoryLocked
unfoldable pub trim_memory_locked : SpoolConfig → Spool → Spool
trim_memory_locked cfg s =
    let kept = trim_buf cfg.max_memory_bytes s.buf_bytes s.buf in
    record s {
      buf = kept;
      buf_bytes = s.buf_bytes - (bytes_of s.buf - bytes_of kept);
      dropped = s.dropped + (length s.buf - length kept);
    }

-- The part of enforceDiskBudget after the size was read.
abbrev pub enforce_size : SpoolConfig → StoreAnswers → ℕ → Spool → Spool
enforce_size cfg f size s =
    let kept =
      delete_oldest_bytes spool_drop_scan_limit 0
        ((size - cfg.max_disk_bytes) + cfg.max_disk_bytes / 10) s.rows in
    if leb size cfg.max_disk_bytes || f.delete_fails then s else record s {
      rows = kept;
      dropped_since_connect =
          if f.count_fails
          then s.dropped_since_connect
          else s.dropped_since_connect + removed s.rows kept;
    }

abbrev pub on_size : SpoolConfig → StoreAnswers → Option ℕ → Spool → Spool
on_size cfg f none s = s
on_size cfg f (some size) s = enforce_size cfg f size s

unfoldable pub enforce_disk_budget : SpoolConfig → StoreAnswers → Spool → Spool
enforce_disk_budget cfg f s =
    if eqb cfg.max_disk_bytes 0 || not s.has_store then s else on_size cfg f f.size s

-- The buffer, written to the file.
abbrev pub appended : Spool → Spool
appended s = record s {
  buf = [];
  buf_bytes = 0;
  rows = s.rows ++ numbered (suc s.last_seq) s.buf;
  last_seq = s.last_seq + length s.buf;
}

-- A batch that the file does not take goes back in front of the buffer.
unfoldable pub flush : SpoolConfig → StoreAnswers → Spool → Spool
unfolding trim_memory_locked enforce_disk_budget
flush cfg f s =
    if eqb (length s.buf) 0
    then s
    else if not s.has_store
    then trim_memory_locked cfg s
    else if f.append_fails
    then s
    else enforce_disk_budget cfg f (appended s)

-- Whether enforceDiskBudget returns an error: of the size, of the delete, or of what follows it.
abbrev pub budget_fails : SpoolConfig → StoreAnswers → Option ℕ → Spool → Bool
budget_fails cfg f none s = true
budget_fails cfg f (some size) s =
    let kept =
      delete_oldest_bytes spool_drop_scan_limit 0
        ((size - cfg.max_disk_bytes) + cfg.max_disk_bytes / 10) s.rows in
    not (leb size cfg.max_disk_bytes)
    && (f.delete_fails || (f.count_fails && ltb 0 (removed s.rows kept)))

-- Whether flush returns an error.
unfoldable pub flush_fails : SpoolConfig → StoreAnswers → Spool → Bool
flush_fails cfg f s =
    if eqb (length s.buf) 0 || not s.has_store
    then false
    else if f.append_fails
    then true
    else not (eqb cfg.max_disk_bytes 0) && budget_fails cfg f f.size (appended s)

-- Send of an event that is queued. Short of the memory budget the flush is left to its loop.
unfoldable pub send : SpoolConfig → StoreAnswers → PendingEvent → Spool → Spool
unfolding flush
send cfg f evt s =
    let queued = record s {
      buf = s.buf ++ (evt ∷ []);
      buf_bytes = s.buf_bytes + length evt.payload;
    } in
    if leb cfg.max_memory_bytes queued.buf_bytes then flush cfg f queued else queued
