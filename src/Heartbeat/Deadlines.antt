-- ===== src/Heartbeat/Deadlines.antt =====
-- The deadline checker of internal/heartbeat/service.go, with the query of ListOverdueHeartbeats, and
-- every operation on a heartbeat as one step.
pub mod Soundness
pub mod Detection
use pulseboard.Common.{
  ℕ, suc, ◌+◌, ◌/◌, Bool, true, false, ◌&&◌, Option, none, some, List, [], ◌∷◌, ltb, if◌then◌else◌,
}
use pulseboard.Common.Int.{ℤ}
use pulseboard.Heartbeat.Model.{
  HeartbeatStatus, up, down, started, alerting, timeout, is_started, Heartbeat, Monitor,
  update_heartbeat_state, update_execution, Faults, Notice, status_changed, alert_event,
  alert_callback,
}
use pulseboard.Heartbeat.Pings.{
  Outcome, close_execution, finished, process_ping, process_start_ping, process_exit_code_ping,
  pause_heartbeat, resume_heartbeat,
}

abbrev is_watched : HeartbeatStatus → Bool
is_watched up = true
is_watched started = true
is_watched _ = false

-- next_deadline_at IS NOT NULL AND next_deadline_at < ?, in seconds
abbrev passed : ℕ → Option ℕ → Bool
passed now none = false
passed now (some t) = ltb (t / 1000) (now / 1000)

unfoldable pub is_overdue : ℕ → Heartbeat → Bool
is_overdue now h = h.active && (is_watched h.status && passed now h.next_deadline_at)

-- One round of the loop over the overdue heartbeats. A failed update skips the rest.
unfoldable pub mark_overdue : Faults → ℕ → Monitor → Monitor × List Notice
unfolding update_heartbeat_state update_execution
mark_overdue f now m =
    let h = m.row in
    let after = record h {
      status = down;
      alert_state = alerting;
      consecutive_failures = h.consecutive_failures + 1;
      consecutive_successes = 0;
    } in
    let m1 = record m { row = update_heartbeat_state after } in
    if f.update_state then (m, []) else (
      (if is_started h.status
          then close_execution f (finished now none none timeout none) m1
          else m1),
      status_changed h.status down ∷ alert_event ∷ alert_callback ∷ [],
    )

unfoldable pub check_deadline : Faults → ℕ → Monitor → Monitor × List Notice
unfolding mark_overdue is_overdue
check_deadline f now m = if is_overdue now m.row then mark_overdue f now m else (m, [])

-- checkDeadlines, over the table; each heartbeat meets its own faults.
unfoldable pub check_deadlines : (Monitor → Faults) → ℕ → List Monitor → List Monitor
unfolding check_deadline
check_deadlines f now [] = []
check_deadlines f now (m ∷ ms) = (check_deadline (f m) now m).0 ∷ check_deadlines f now ms

-- What can happen to one heartbeat.
pub data Op : Type 0 where
  ping : Option (List ℕ) → Op
  start_ping : Op
  exit_code_ping : ℤ → Option (List ℕ) → Op
  check : Op
  pause : Op
  resume : Op

unfoldable pub apply : Faults → ℕ → Op → Monitor → Monitor
unfolding process_ping process_start_ping process_exit_code_ping check_deadline pause_heartbeat
    resume_heartbeat
apply f now (ping p) m = (process_ping f now p m).monitor
apply f now start_ping m = (process_start_ping f now m).monitor
apply f now (exit_code_ping c p) m = (process_exit_code_ping f now c p m).monitor
apply f now check m = (check_deadline f now m).0
apply f now pause m = (pause_heartbeat f m).monitor
apply f now resume m = (resume_heartbeat f now m).monitor

unfoldable pub apply_all : List (Faults × ℕ × Op) → Monitor → Monitor
unfolding apply
apply_all [] m = m
apply_all ((f, now, op) ∷ ops) m = apply_all ops (apply f now op m)
