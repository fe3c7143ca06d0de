-- ===== src/Spool/Drain.antt =====
-- The cursor of internal/agent/spool.go: what the drain reads and sends, what an acknowledgment
-- purges, and what rewinds.
pub mod Rising
pub mod Cursor
pub mod Passing
pub mod Acknowledgment
pub mod Flushed
pub mod Rounds
use pulseboard.Common.{
  Bool, Option, none, some, ℕ, zero, suc, ◌+◌, true, false, not, ◌||◌, ◌&&◌, List, [], ◌∷◌, ltb,
  leb, eqb, min, length, select, if◌then◌else◌,
}
use pulseboard.Spool.Model.{SpoolConfig, PendingEvent, SpooledEvent, Spool, StoreAnswers}
use pulseboard.Spool.Queue.{send, flush, flush_fails}

abbrev pub spool_drain_batch : ℕ
spool_drain_batch = 200

abbrev pub take : ℕ → List SpooledEvent → List SpooledEvent
take zero rows = []
take (suc n) [] = []
take (suc n) (r ∷ rows) = r ∷ take n rows

-- WHERE seq > ? ORDER BY seq LIMIT ?; the rows are in the order of their seq.
abbrev pub read_from : ℕ → ℕ → List SpooledEvent → List SpooledEvent
read_from after limit rows = take limit (select (λ r. ltb after r.seq) rows)

-- The head of one round of drainOnce; a batch that is under way is not read again.
unfoldable pub read_batch : ℕ → Spool → Spool
read_batch now s =
    if not s.attached || (not s.has_store || (ltb now s.paused_until || ltb 0 (length s.batch)))
    then s
    else record s { batch = read_from s.send_seq spool_drain_batch s.rows }

-- What becomes of the next row of the batch.
pub data SendOutcome : Type 0 where
  delivered unreadable stopped : SendOutcome

abbrev pub pass_row : SendOutcome → List SpooledEvent → Spool → Spool
pass_row outcome [] s = s
pass_row stopped (r ∷ rest) s = record s { batch = [] }
pass_row delivered (r ∷ rest) s = record s {
  send_seq = r.seq;
  batch = rest;
  handled = r.seq ∷ s.handled;
}
pass_row unreadable (r ∷ rest) s = record s {
  send_seq = r.seq;
  batch = rest;
  handled = r.seq ∷ s.handled;
}

unfoldable pub send_row : SendOutcome → Spool → Spool
send_row outcome s = pass_row outcome s.batch s

abbrev pub is_stopped : SendOutcome → Bool
is_stopped stopped = true
is_stopped _ = false

-- The loop over the rows of a batch, and whether it was stopped.
unfoldable pub pass_rows : (SpooledEvent → SendOutcome) → List SpooledEvent → Spool → Spool × Bool
pass_rows outcome [] s = (s, false)
pass_rows outcome (r ∷ rest) s =
    let next = pass_rows outcome rest (pass_row (outcome r) (r ∷ rest) s) in
    if is_stopped (outcome r) then (pass_row stopped (r ∷ rest) s, true) else next

-- How drainOnce returns: with nothing left to do, at a row that it does not pass, or with the error of
-- the flush or of a read.
pub data DrainEnd : Type 0 where
  idle stopped_at_row flush_failed read_failed : DrainEnd

abbrev can_read : ℕ → Spool → Bool
can_read now s = s.attached && (s.has_store && not (ltb now s.paused_until))

-- The rounds of drainOnce when nothing else comes between; `none` if the fuel ran out. `read_fails`
-- says of which numbers the reads fail.
unfoldable pub drain_rounds :
    (ℕ → Bool) → ℕ → ℕ → (SpooledEvent → SendOutcome) → Spool → Option (Spool × DrainEnd)
unfolding read_batch pass_rows
drain_rounds read_fails zero now outcome s = none
drain_rounds read_fails (suc fuel) now outcome s =
    let read = read_batch now s in
    let (passed, is_over) = pass_rows outcome read.batch read in
    let rest = drain_rounds read_fails fuel now outcome passed in
    if read_fails s.send_seq && can_read now s
    then some (s, read_failed)
    else if eqb (length read.batch) 0
    then some (passed, idle)
    else if is_over
    then some (passed, stopped_at_row)
    else rest

unfoldable pub drain_once :
    SpoolConfig
    → StoreAnswers
    → (ℕ → Bool)
    → ℕ
    → ℕ
    → (SpooledEvent → SendOutcome)
    → Spool
    → Option (Spool × DrainEnd)
unfolding flush flush_fails drain_rounds
drain_once cfg f read_fails fuel now outcome s =
    let rest = drain_rounds read_fails fuel now outcome (flush cfg f s) in
    if flush_fails cfg f s then some (flush cfg f s, flush_failed) else rest

abbrev pub max_int64 : ℕ
max_int64 = 9223372036854775807

-- DeleteUpTo
abbrev pub delete_up_to : ℕ → List SpooledEvent → List SpooledEvent
delete_up_to seq rows = select (λ r. ltb seq r.seq) rows

unfoldable pub acked : StoreAnswers → ℕ → Spool → Spool
acked f seq s =
    let purge_to = min seq s.send_seq in
    if ltb max_int64 seq || leb purge_to s.ack_seq then s else record s {
      ack_seq = purge_to;
      rows = if not s.has_store || f.delete_fails then s.rows else delete_up_to purge_to s.rows;
    }

unfoldable pub rewind : Spool → Spool
rewind s = record s { send_seq = s.ack_seq }

-- Attach, and Detach, which ends the drain of the stream.
unfoldable pub attach : Spool → Spool
unfolding rewind
attach s = rewind (record s { attached = true; paused_until = 0 })

unfoldable pub detach : Spool → Spool
detach s = record s { attached = false; batch = [] }

unfoldable pub rate_limited : ℕ → ℕ → Spool → Spool
rate_limited now retry_after s = record s {
  send_seq = s.ack_seq;
  paused_until = now + (if eqb retry_after 0 then 1 else retry_after);
}

-- DeleteOlderThan, of the retention
unfoldable pub purge_expired : StoreAnswers → ℕ → Spool → Spool
purge_expired f cutoff s =
    if not s.has_store || f.delete_fails
    then s
    else record s { rows = select (λ r. not (ltb r.event.observed_at cutoff)) s.rows }

-- ResetDropped; the counter of the file stays if its statement fails.
unfoldable pub reset_dropped : StoreAnswers → Spool → Spool
reset_dropped f s = record s {
  dropped = 0;
  dropped_since_connect = if not s.has_store || f.count_fails then s.dropped_since_connect else 0;
}

-- Close: what is in memory goes to the file, which is left to the next start.
unfoldable pub close : SpoolConfig → StoreAnswers → Spool → Spool
unfolding flush
close cfg f s = record (flush cfg f s) { has_store = false }

-- Discard: the memory is emptied and the file removed, if it can be.
unfoldable pub discard : StoreAnswers → Spool → Spool
discard f s = record s {
  has_store = false;
  buf = [];
  buf_bytes = 0;
  rows = if not s.has_store || f.delete_fails then s.rows else [];
}

-- What can happen to a spool. The drain gives its lock back between two rows, so anything can come
-- between them.
pub data Op : Type 0 where
  op_send : PendingEvent → Op
  op_flush : Op
  op_read_batch : ℕ → Op
  op_send_row : SendOutcome → Op
  op_acked : ℕ → Op
  op_attach : Op
  op_detach : Op
  op_rate_limited : ℕ → ℕ → Op
  op_purge_expired : ℕ → Op
  op_reset_dropped : Op
  op_close : Op
  op_discard : Op

unfoldable pub apply_op : SpoolConfig → StoreAnswers → Op → Spool → Spool
unfolding send flush read_batch send_row acked attach detach rate_limited purge_expired
    reset_dropped close discard
apply_op cfg f (op_send e) s = send cfg f e s
apply_op cfg f op_flush s = flush cfg f s
apply_op cfg f (op_read_batch now) s = read_batch now s
apply_op cfg f (op_send_row o) s = send_row o s
apply_op cfg f (op_acked seq) s = acked f seq s
apply_op cfg f op_attach s = attach s
apply_op cfg f op_detach s = detach s
apply_op cfg f (op_rate_limited now d) s = rate_limited now d s
apply_op cfg f (op_purge_expired cutoff) s = purge_expired f cutoff s
apply_op cfg f op_reset_dropped s = reset_dropped f s
apply_op cfg f op_close s = close cfg f s
apply_op cfg f op_discard s = discard f s

unfoldable pub apply_ops : SpoolConfig → List (StoreAnswers × Op) → Spool → Spool
unfolding apply_op
apply_ops cfg [] s = s
apply_ops cfg ((f, op) ∷ ops) s = apply_ops cfg ops (apply_op cfg f op s)
