-- ===== src/Checks/SpoolRuns.antt =====
-- A spool with two rows in its file and one event in memory.
use pulseboard.Common.{
  ◌<◌, nat_eq, true, false, some, List, [], ◌∷◌, ◌++◌, ◌≡◌, refl, arith, length, all, contains, eqb,
  if◌then◌else◌,
}
use pulseboard.Spool.Model.{SpoolConfig, PendingEvent, SpooledEvent, Spool, StoreAnswers}
use pulseboard.Spool.Queue.{enforce_disk_budget, flush, flush_fails, send}
use pulseboard.Spool.Queue.Conservation.{waiting, LosesOldest, send-LosesOldest}
use pulseboard.Spool.Drain.{
  Op, op_read_batch, op_send_row, op_rate_limited, op_acked, SendOutcome, delivered, unreadable,
  is_stopped, acked, apply_ops, idle, drain_once,
}
use pulseboard.Spool.Drain.Cursor.{HasCursor}
use pulseboard.Spool.Drain.Acknowledgment.{is_kept_or_passed, acked-apply_ops}
use pulseboard.Spool.Drain.Rounds.{CanDrain, rows_above, drain_once-ends}

abbrev sample : PendingEvent
sample = record { event_id = "e"; observed_at = 10; payload = 1 ∷ 2 ∷ 3 ∷ [] }

abbrev two_rows : Spool
two_rows = record {
  buf = sample ∷ [];
  buf_bytes = 3;
  has_store = true;
  rows = record { seq = 1; event = sample } ∷ record { seq = 2; event = sample } ∷ [];
  last_seq = 2;
  dropped = 0;
  dropped_since_connect = 0;
  attached = true;
  send_seq = 0;
  ack_seq = 0;
  paused_until = 0;
  batch = [];
  handled = [];
}

abbrev small : SpoolConfig
small = record { max_memory_bytes = 4; max_disk_bytes = 100 }

-- The file is found a byte over its budget.
abbrev over_budget : StoreAnswers
over_budget = record {
  append_fails = false;
  size = some 101;
  delete_fails = false;
  count_fails = false;
}

send-LosesOldest_example :
    LosesOldest over_budget
      (waiting two_rows ++ (sample ∷ []))
      0
      (send small over_budget sample two_rows)
send-LosesOldest_example = send-LosesOldest small over_budget sample two_rows refl

a_tenth_freed : length (waiting (send small over_budget sample two_rows)) ≡ 0
unfolding send
a_tenth_freed = refl

-- The server refuses the first row while the second is on its way, then acknowledges the second:
-- both rows are gone, and the first was sent once.
refused_row_is_lost :
    (apply_ops small
      ((over_budget, op_read_batch 5)
        ∷ (over_budget, op_send_row delivered)
        ∷ (over_budget, op_rate_limited 5 1)
        ∷ (over_budget, op_send_row delivered)
        ∷ (over_budget, op_acked 2)
        ∷ [])
      two_rows).rows
    ≡ []
unfolding apply_ops
refused_row_is_lost = refl

two_rows-HasCursor : HasCursor two_rows
two_rows-HasCursor = record {
  rows_rising = ground arith;
  batch_rising = ground arith;
  ack_le_send = omega arith;
  send_le_last = omega arith;
  accounted = refl;
}

two_rows-CanDrain : CanDrain 5 two_rows
two_rows-CanDrain = record { attached = refl; stored = refl; unpaused = refl }

-- A batch is read and its first row sent before the server acknowledges far more than was sent.
abbrev one_sent : List (StoreAnswers × Op)
one_sent = (over_budget, op_read_batch 5) ∷ (over_budget, op_send_row delivered) ∷ []

acked-apply_ops_example :
    all
      (is_kept_or_passed
        (acked over_budget 9 (apply_ops small one_sent two_rows)).rows
        (apply_ops small one_sent two_rows).handled)
      (apply_ops small one_sent two_rows).rows
    ≡ true
acked-apply_ops_example = acked-apply_ops small one_sent two_rows over_budget 9 two_rows-HasCursor

-- The second row cannot be read.
abbrev bad_second : SpooledEvent → SendOutcome
bad_second r = if eqb r.seq 2 then unreadable else delivered

bad_second-runs : (r : SpooledEvent) → is_stopped (bad_second r) ≡ false
bad_second-runs r = ground arith

abbrev within_budget : StoreAnswers
within_budget = record over_budget { size = some 60 }

flush_works : flush_fails small within_budget two_rows ≡ false
unfolding flush_fails
flush_works = refl

few_rows : rows_above 0 (flush small within_budget two_rows).rows < 4
unfolding flush enforce_disk_budget
few_rows = omega arith

drain_once-ends_example :
    (after : Spool) × (drain_once small within_budget (λ n. false) 4 5 bad_second two_rows
      ≡ some (after, idle))
    × (after.buf ≡ [])
    × (after.rows ≡ (flush small within_budget two_rows).rows)
    × (all (λ q. contains after.handled q.seq) after.rows ≡ true)
drain_once-ends_example =
    drain_once-ends small within_budget (λ n. false) 4 5 bad_second two_rows flush_works (λ n. refl)
      bad_second-runs two_rows-CanDrain refl two_rows-HasCursor few_rows
