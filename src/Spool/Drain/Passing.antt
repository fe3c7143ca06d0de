-- ===== src/Spool/Drain/Passing.antt =====
-- What the drain has passed before an acknowledgment deletes it.
use pulseboard.Common.{
  ℕ, zero, suc, ◌+◌, ◌≤◌, Bool, true, false, not, ◌||◌, List, [], ◌∷◌, ◌≡◌, refl, arith, ltb, leb,
  eqb, all, length, select, contains, nat_eq, if◌then◌else◌, Bool-cases, inl, inr, ◌⊎◌,
}
use mathlib.Core.Path.{subst}
use pulseboard.Spool.Model.{SpoolConfig, SpooledEvent, Spool, StoreAnswers}
use pulseboard.Spool.Drain.{
  read_from, read_batch, spool_drain_batch, SendOutcome, delivered, unreadable, stopped, pass_row,
  send_row, rewind, attach, detach, rate_limited, purge_expired, Op, op_send, op_flush,
  op_read_batch, op_send_row, op_acked, op_attach, op_detach, op_rate_limited, op_purge_expired,
  op_reset_dropped, op_close, op_discard, reset_dropped, close, discard, apply_op, apply_ops,
}
use pulseboard.Spool.Queue.{flush}
use pulseboard.Spool.Drain.Rising.{
  Rising, has_seq, reach, Rising-weaken, Rising-select, Rising-select_above, Rising-take,
  reach_bounds, has_seq-lt, all-weaken, all-weaken_both, all-select, all-Rising,
}
use pulseboard.Spool.Drain.Cursor.{
  is_accounted, HasCursor, acked-HasCursor, flush-HasCursor, send-HasCursor,
}

-- A row up to the cursor, or read: the first `n` beyond the cursor are the batch.
abbrev read_test : ℕ → ℕ → List SpooledEvent → SpooledEvent → Bool
read_test send top batch q = leb q.seq send || (ltb top q.seq || has_seq batch q.seq)

-- No row stands between those that a batch of at most `n` rows holds.
read_from-all :
    (n send base lo hi : ℕ) (rows : List SpooledEvent)
    → (base ≤ send) ⊎ (base ≤ lo)
    → Rising lo hi rows
    → all (read_test send (reach base (read_from send n rows)) (read_from send n rows)) rows ≡ true
read_from-all n send base lo hi [] b h = refl
read_from-all zero send base lo hi (r ∷ rows) b h =
    all-Rising (read_test send base []) lo hi (r ∷ rows) (λ q l. ground (arith, b, l)) h
read_from-all (suc n) send base lo hi (r ∷ rows) b (l, u, h) = elim (Bool-cases (ltb send r.seq)) [
  | inl t ↦ ground (
    arith,
    t,
    all-weaken (read_test send (reach r.seq (read_from send n rows)) (read_from send n rows))
        (read_test send (reach r.seq (read_from send n rows)) (r ∷ read_from send n rows)) rows
        (λ q e. ground (arith, e)) (read_from-all n send r.seq r.seq hi rows (inr (omega arith)) h),
  )
  | inr f ↦ ground (arith, f, read_from-all (suc n) send base r.seq hi rows (lower b) h)
]
  where
    lower : (base ≤ send) ⊎ (base ≤ lo) → (base ≤ send) ⊎ (base ≤ r.seq)
    lower (inl a) = inl a
    lower (inr c) = inr (omega arith)

join :
    (send top n : ℕ) (passed held : Bool)
    → (ltb send n || passed) ≡ true
    → (leb n send || (ltb top n || held)) ≡ true
    → (ltb top n || (passed || held)) ≡ true
join send top n passed held a b = ground arith

module _ (s : Spool) (h : HasCursor s) where
  abbrev new_batch : List SpooledEvent
  new_batch = read_from s.send_seq spool_drain_batch s.rows

  -- All up to the cursor is passed.
  pub passed_below : all (λ q. ltb s.send_seq q.seq || contains s.handled q.seq) s.rows ≡ true
  passed_below =
      all-weaken (is_accounted (reach s.send_seq s.batch) s.handled s.batch)
        (λ q. ltb s.send_seq q.seq || contains s.handled q.seq) s.rows
        (λ q a. ground (
          arith,
          a,
          has_seq-lt s.send_seq s.last_seq q.seq s.batch h.batch_rising,
          reach_bounds s.send_seq s.last_seq s.batch h.send_le_last h.batch_rising,
        ))
        h.accounted

  pub read_batch-HasCursor : (now : ℕ) → HasCursor (read_batch now s)
  unfolding read_batch
  read_batch-HasCursor now =
      elim (Bool-cases (
        not s.attached
        || (not s.has_store || (ltb now s.paused_until || ltb 0 (length s.batch))))) [
          | inl t ↦ simp t h
          | inr u ↦ simp u read
        ]
    where
      read : HasCursor (record s { batch = new_batch })
      read = record {
        rows_rising = h.rows_rising;
        batch_rising =
            Rising-take spool_drain_batch s.send_seq s.last_seq
              (select (λ r. ltb s.send_seq r.seq) s.rows)
              (Rising-select_above s.send_seq 0 s.last_seq s.rows h.rows_rising);
        ack_le_send = h.ack_le_send;
        send_le_last = h.send_le_last;
        accounted =
            all-weaken_both (λ q. ltb s.send_seq q.seq || contains s.handled q.seq)
              (read_test s.send_seq (reach s.send_seq new_batch) new_batch)
              (is_accounted (reach s.send_seq new_batch) s.handled new_batch) s.rows
              (λ q.
                join s.send_seq (reach s.send_seq new_batch) q.seq (contains s.handled q.seq)
                  (has_seq new_batch q.seq))
              passed_below
              (read_from-all spool_drain_batch s.send_seq s.send_seq 0 s.last_seq s.rows
                (inl (omega arith)) h.rows_rising);
      }

  -- The row that leaves the batch is passed, and no other changes.
  pub passed-HasCursor :
      (r : SpooledEvent) (rest : List SpooledEvent)
      → s.batch ≡ r ∷ rest
      → HasCursor (record s { send_seq = r.seq; batch = rest; handled = r.seq ∷ s.handled })
  passed-HasCursor r rest e = record {
    rows_rising = h.rows_rising;
    batch_rising = rising.2;
    ack_le_send = omega (arith, h.ack_le_send, rising.0);
    send_le_last = rising.1;
    accounted =
        all-weaken (is_accounted (reach s.send_seq (r ∷ rest)) s.handled (r ∷ rest))
          (is_accounted (reach r.seq rest) (r.seq ∷ s.handled) rest) s.rows
          (λ q a. ground (arith, a))
          (subst (λ b. all (is_accounted (reach s.send_seq b) s.handled b) s.rows ≡ true) e
            h.accounted);
  }
    where
      rising : Rising s.send_seq s.last_seq (r ∷ rest)
      rising = subst (λ b. Rising s.send_seq s.last_seq b) e h.batch_rising

  -- A batch is given up, and what it still holds lies beyond the cursor.
  stopped-HasCursor : HasCursor (record s { batch = [] })
  stopped-HasCursor = record {
    rows_rising = h.rows_rising;
    batch_rising = tt;
    ack_le_send = h.ack_le_send;
    send_le_last = h.send_le_last;
    accounted =
        all-weaken (is_accounted (reach s.send_seq s.batch) s.handled s.batch)
          (is_accounted s.send_seq s.handled []) s.rows
          (λ q a. ground (
            arith,
            a,
            has_seq-lt s.send_seq s.last_seq q.seq s.batch h.batch_rising,
            reach_bounds s.send_seq s.last_seq s.batch h.send_le_last h.batch_rising,
          ))
          h.accounted;
  }

  rewind-HasCursor : HasCursor (rewind s)
  unfolding rewind
  rewind-HasCursor = record {
    rows_rising = h.rows_rising;
    batch_rising =
        Rising-weaken s.send_seq s.last_seq s.ack_seq s.last_seq s.batch h.ack_le_send (omega arith)
          h.batch_rising;
    ack_le_send = omega arith;
    send_le_last = omega (arith, h.ack_le_send, h.send_le_last);
    accounted =
        all-weaken (is_accounted (reach s.send_seq s.batch) s.handled s.batch)
          (is_accounted (reach s.ack_seq s.batch) s.handled s.batch) s.rows (λ q. lower s.batch q)
          h.accounted;
  }
    where
      lower :
          (b : List SpooledEvent) (q : SpooledEvent)
          → is_accounted (reach s.send_seq b) s.handled b q ≡ true
          → is_accounted (reach s.ack_seq b) s.handled b q ≡ true
      lower [] q a = ground (arith, a, h.ack_le_send)
      lower (x ∷ xs) q a = a

  purge_expired-HasCursor : (f : StoreAnswers) (cutoff : ℕ) → HasCursor (purge_expired f cutoff s)
  unfolding purge_expired
  purge_expired-HasCursor f cutoff = ground (
    arith,
    h,
    Rising-select (λ r. not (ltb r.event.observed_at cutoff)) 0 s.last_seq s.rows h.rows_rising,
    all-select (is_accounted (reach s.send_seq s.batch) s.handled s.batch)
        (λ r. not (ltb r.event.observed_at cutoff)) s.rows h.accounted,
  )

pass_row-HasCursor :
    (o : SendOutcome) (b : List SpooledEvent) (s : Spool)
    → s.batch ≡ b
    → HasCursor s
    → HasCursor (pass_row o b s)
pass_row-HasCursor o [] s e h = h
pass_row-HasCursor stopped (r ∷ rest) s e h = stopped-HasCursor s h
pass_row-HasCursor delivered (r ∷ rest) s e h = passed-HasCursor s h r rest e
pass_row-HasCursor unreadable (r ∷ rest) s e h = passed-HasCursor s h r rest e

-- The flags do not move the cursor.
flags-HasCursor :
    (attached : Bool) (paused_until : ℕ) (s : Spool)
    → HasCursor s
    → HasCursor (record s { attached = attached; paused_until = paused_until })
flags-HasCursor attached paused_until s h = record {
  rows_rising = h.rows_rising;
  batch_rising = h.batch_rising;
  ack_le_send = h.ack_le_send;
  send_le_last = h.send_le_last;
  accounted = h.accounted;
}

closed-HasCursor : (s : Spool) → HasCursor s → HasCursor (record s { has_store = false })
closed-HasCursor s h = record {
  rows_rising = h.rows_rising;
  batch_rising = h.batch_rising;
  ack_le_send = h.ack_le_send;
  send_le_last = h.send_le_last;
  accounted = h.accounted;
}

reset_dropped-HasCursor :
    (f : StoreAnswers) (s : Spool) → HasCursor s → HasCursor (reset_dropped f s)
unfolding reset_dropped
reset_dropped-HasCursor f s h = record {
  rows_rising = h.rows_rising;
  batch_rising = h.batch_rising;
  ack_le_send = h.ack_le_send;
  send_le_last = h.send_le_last;
  accounted = h.accounted;
}

discard-HasCursor : (f : StoreAnswers) (s : Spool) → HasCursor s → HasCursor (discard f s)
unfolding discard
discard-HasCursor f s h = ground (arith, h)

apply_op-HasCursor :
    (cfg : SpoolConfig) (f : StoreAnswers) (op : Op) (s : Spool)
    → HasCursor s
    → HasCursor (apply_op cfg f op s)
unfolding apply_op send_row attach detach rate_limited rewind close
apply_op-HasCursor cfg f (op_send e) s h = send-HasCursor cfg f e s h
apply_op-HasCursor cfg f op_flush s h = flush-HasCursor cfg f s h
apply_op-HasCursor cfg f (op_read_batch now) s h = read_batch-HasCursor s h now
apply_op-HasCursor cfg f (op_send_row o) s h = pass_row-HasCursor o s.batch s refl h
apply_op-HasCursor cfg f (op_acked seq) s h = acked-HasCursor s h f seq
apply_op-HasCursor cfg f op_attach s h = flags-HasCursor true 0 (rewind s) (rewind-HasCursor s h)
apply_op-HasCursor cfg f op_detach s h =
    flags-HasCursor false s.paused_until (record s { batch = [] }) (stopped-HasCursor s h)
apply_op-HasCursor cfg f (op_rate_limited now d) s h =
    flags-HasCursor s.attached (now + (if eqb d 0 then 1 else d)) (rewind s) (rewind-HasCursor s h)
apply_op-HasCursor cfg f (op_purge_expired cutoff) s h = purge_expired-HasCursor s h f cutoff
apply_op-HasCursor cfg f op_reset_dropped s h = reset_dropped-HasCursor f s h
apply_op-HasCursor cfg f op_close s h = closed-HasCursor (flush cfg f s) (flush-HasCursor cfg f s h)
apply_op-HasCursor cfg f op_discard s h = discard-HasCursor f s h

pub apply_ops-HasCursor :
    (cfg : SpoolConfig) (ops : List (StoreAnswers × Op)) (s : Spool)
    → HasCursor s
    → HasCursor (apply_ops cfg ops s)
unfolding apply_ops
apply_ops-HasCursor cfg [] s h = h
apply_ops-HasCursor cfg ((f, op) ∷ ops) s h =
    apply_ops-HasCursor cfg ops (apply_op cfg f op s) (apply_op-HasCursor cfg f op s h)
