-- ===== src/Spool/Drain/Cursor.antt =====
-- The cursor of the drain, whatever comes between two rows: an acknowledgment deletes only rows that
-- the drain has passed.
use pulseboard.Common.{
  ℕ, suc, ◌+◌, ◌-◌, ◌/◌, ◌≤◌, Bool, true, ◌||◌, Option, none, some, List, [], ◌∷◌, ◌++◌, ◌≡◌, arith,
  ltb, leb, all, min, length, contains, nat_eq, if◌then◌else◌, Bool-cases, inl, inr,
}
use pulseboard.Spool.Model.{SpoolConfig, PendingEvent, SpooledEvent, Spool, StoreAnswers}
use pulseboard.Spool.Queue.{
  numbered, delete_oldest_bytes, removed, flush, enforce_size, enforce_disk_budget, on_size, send,
  trim_memory_locked, spool_drop_scan_limit,
}
use pulseboard.Spool.Drain.{acked}
use pulseboard.Spool.Drain.Rising.{
  Rising, has_seq, reach, Rising-weaken, Rising-select, Rising-delete_oldest_bytes,
  Rising-append_numbered, reach_bounds, all-append, all-select, all-delete_oldest_bytes, all-Rising,
}

-- A row up to the last that was read has been passed or stands in the batch.
abbrev pub is_accounted : ℕ → List ℕ → List SpooledEvent → SpooledEvent → Bool
is_accounted top handled batch q = ltb top q.seq || (contains handled q.seq || has_seq batch q.seq)

pub record HasCursor (s : Spool) : Type 0 where
  pub rows_rising : Rising 0 s.last_seq s.rows
  pub batch_rising : Rising s.send_seq s.last_seq s.batch
  pub ack_le_send : s.ack_seq ≤ s.send_seq
  pub send_le_last : s.send_seq ≤ s.last_seq
  pub accounted : all (is_accounted (reach s.send_seq s.batch) s.handled s.batch) s.rows ≡ true

module _ (s : Spool) (h : HasCursor s) where
  pub top_le : reach s.send_seq s.batch ≤ s.last_seq
  top_le = (reach_bounds s.send_seq s.last_seq s.batch h.send_le_last h.batch_rising).1

  pub written-HasCursor : HasCursor (record s {
    buf = [];
    buf_bytes = 0;
    rows = s.rows ++ numbered (suc s.last_seq) s.buf;
    last_seq = s.last_seq + length s.buf;
  })
  written-HasCursor = record {
    rows_rising = Rising-append_numbered 0 s.last_seq s.rows s.buf (omega arith) h.rows_rising;
    batch_rising =
        Rising-weaken s.send_seq s.last_seq s.send_seq (s.last_seq + length s.buf) s.batch
          (omega arith) (omega arith) h.batch_rising;
    ack_le_send = h.ack_le_send;
    send_le_last = omega (arith, h.send_le_last);
    accounted =
        all-append (is_accounted (reach s.send_seq s.batch) s.handled s.batch) s.rows
          (numbered (suc s.last_seq) s.buf) h.accounted
          (all-Rising (is_accounted (reach s.send_seq s.batch) s.handled s.batch) s.last_seq
            (s.last_seq + length s.buf) (numbered (suc s.last_seq) s.buf)
            (λ r l. ground (arith, top_le, l))
            (Rising-append_numbered s.last_seq s.last_seq [] s.buf (omega arith) tt));
  }

  -- Rows may go.
  pub fewer-HasCursor :
      (rows : List SpooledEvent) (counted : ℕ)
      → Rising 0 s.last_seq rows
      → all (is_accounted (reach s.send_seq s.batch) s.handled s.batch) rows ≡ true
      → HasCursor (record s { rows = rows; dropped_since_connect = counted })
  fewer-HasCursor rows counted r a = record {
    rows_rising = r;
    batch_rising = h.batch_rising;
    ack_le_send = h.ack_le_send;
    send_le_last = h.send_le_last;
    accounted = a;
  }

  enforce_size-HasCursor :
      (cfg : SpoolConfig) (f : StoreAnswers) (size : ℕ) → HasCursor (enforce_size cfg f size s)
  enforce_size-HasCursor cfg f size =
      elim (Bool-cases (leb size cfg.max_disk_bytes || f.delete_fails)) [
        | inl t ↦ simp t h
        | inr u ↦ simp u (
            fewer-HasCursor
              (delete_oldest_bytes spool_drop_scan_limit 0
                ((size - cfg.max_disk_bytes) + cfg.max_disk_bytes / 10) s.rows)
              (if f.count_fails
                then s.dropped_since_connect
                else s.dropped_since_connect
                  + removed s.rows (
                      delete_oldest_bytes spool_drop_scan_limit 0
                        ((size - cfg.max_disk_bytes) + cfg.max_disk_bytes / 10) s.rows))
              (Rising-delete_oldest_bytes spool_drop_scan_limit 0
                ((size - cfg.max_disk_bytes) + cfg.max_disk_bytes / 10) 0 s.last_seq s.rows
                h.rows_rising)
              (all-delete_oldest_bytes (is_accounted (reach s.send_seq s.batch) s.handled s.batch)
                spool_drop_scan_limit 0 ((size - cfg.max_disk_bytes) + cfg.max_disk_bytes / 10)
                s.rows h.accounted))
      ]

  on_size-HasCursor :
      (cfg : SpoolConfig) (f : StoreAnswers) (size : Option ℕ) → HasCursor (on_size cfg f size s)
  on_size-HasCursor cfg f none = h
  on_size-HasCursor cfg f (some size) = enforce_size-HasCursor cfg f size

  pub enforce_disk_budget-HasCursor :
      (cfg : SpoolConfig) (f : StoreAnswers) → HasCursor (enforce_disk_budget cfg f s)
  unfolding enforce_disk_budget
  enforce_disk_budget-HasCursor cfg f = ground (arith, on_size-HasCursor cfg f f.size, h)

  pub acked-HasCursor : (f : StoreAnswers) (seq : ℕ) → HasCursor (acked f seq s)
  unfolding acked
  acked-HasCursor f seq = ground (
    arith,
    h,
    Rising-select (λ r. ltb (min seq s.send_seq) r.seq) 0 s.last_seq s.rows h.rows_rising,
    all-select (is_accounted (reach s.send_seq s.batch) s.handled s.batch)
        (λ r. ltb (min seq s.send_seq) r.seq) s.rows h.accounted,
  )

  trim-HasCursor : (cfg : SpoolConfig) → HasCursor (trim_memory_locked cfg s)
  unfolding trim_memory_locked
  trim-HasCursor cfg = record {
    rows_rising = h.rows_rising;
    batch_rising = h.batch_rising;
    ack_le_send = h.ack_le_send;
    send_le_last = h.send_le_last;
    accounted = h.accounted;
  }

  -- The buffer is not on the way of the cursor.
  queued-HasCursor :
      (es : List PendingEvent) (n : ℕ) → HasCursor (record s { buf = es; buf_bytes = n })
  queued-HasCursor es n = record {
    rows_rising = h.rows_rising;
    batch_rising = h.batch_rising;
    ack_le_send = h.ack_le_send;
    send_le_last = h.send_le_last;
    accounted = h.accounted;
  }

pub flush-HasCursor :
    (cfg : SpoolConfig) (f : StoreAnswers) (s : Spool) → HasCursor s → HasCursor (flush cfg f s)
unfolding flush
flush-HasCursor cfg f s h = ground (
  arith,
  h,
  trim-HasCursor s h cfg,
  enforce_disk_budget-HasCursor
      (record s {
        buf = [];
        buf_bytes = 0;
        rows = s.rows ++ numbered (suc s.last_seq) s.buf;
        last_seq = s.last_seq + length s.buf;
      })
      (written-HasCursor s h) cfg f,
)

pub send-HasCursor :
    (cfg : SpoolConfig) (f : StoreAnswers) (evt : PendingEvent) (s : Spool)
    → HasCursor s
    → HasCursor (send cfg f evt s)
unfolding send
send-HasCursor cfg f evt s h = ground (
  arith,
  queued-HasCursor s h (s.buf ++ (evt ∷ [])) (s.buf_bytes + length evt.payload),
  flush-HasCursor cfg f
      (record s { buf = s.buf ++ (evt ∷ []); buf_bytes = s.buf_bytes + length evt.payload })
      (queued-HasCursor s h (s.buf ++ (evt ∷ [])) (s.buf_bytes + length evt.payload)),
)
