-- ===== src/Heartbeat/Pings.antt =====
-- ProcessPing, ProcessStartPing and ProcessExitCodePing of internal/heartbeat/service.go, and the
-- pause and resume of a heartbeat.
pub mod Parts
unfoldable pub use Parts.*
use pulseboard.Common.{
  ℕ, zero, suc, ◌+◌, ◌-◌, ◌*◌, ◌≤◌, String, string_eq, Bool, true, false, not, ◌&&◌, ◌||◌, Option,
  none, some, List, [], ◌∷◌, ◌++◌, leb, eqb, if◌then◌else◌,
}
use pulseboard.Common.Assoc.{lookup, insert}
use pulseboard.Common.Int.{ℤ, pos, negsuc}
use pulseboard.Heartbeat.Model.{
  HeartbeatStatus, up, down, started, paused, fresh, AlertState, normal, alerting, PingType,
  success, start, exit_code, ExecutionOutcome, succeeded, failed, timeout, in_progress, is_started,
  is_down, is_alerting, same_status, Heartbeat, HeartbeatPing, HeartbeatExecution, Monitor,
  max_payload_bytes, in_seconds, in_seconds?, deadline_from, update_heartbeat_state,
  get_current_execution, update_execution, Faults, Failure, heartbeat_not_found, invalid_exit_code,
  invalid_input, store_failed, Notice, ping_received, status_changed, recovery_event, alert_event,
  alert_callback, recovery_callback,
}

-- The counters, deadline and run of ProcessPing.
unfoldable pub pinged : ℕ → Heartbeat → Heartbeat
pinged now h = record h {
  last_ping_at = some now;
  next_deadline_at = some (deadline_from now h);
  consecutive_successes = h.consecutive_successes + 1;
  consecutive_failures = 0;
  last_duration_ms =
      if completes h then elapsed now h.current_run_started_at else h.last_duration_ms;
  current_run_started_at = if completes h then none else h.current_run_started_at;
}

abbrev pub recovering : Heartbeat → Bool
recovering h = is_down h.status || is_alerting h.alert_state

unfoldable pub process_ping : Faults → ℕ → Option (List ℕ) → Monitor → Outcome
unfolding pinged update_heartbeat_state update_execution
process_ping f now payload m =
    let h = m.row in
    let h' = pinged now h in
    let stored = filter_payload f.can_store_payload payload in
    let m1 =
      record_ping f
        (record { ping_type = success; code = none; payload = stored; timestamp = in_seconds now })
        m in
    let m2 =
      if completes h
      then close_execution f (finished now h'.last_duration_ms none succeeded stored) m1
      else add_execution f (untracked now none none succeeded stored) m1 in
    let after = record h' {
      status = up;
      alert_state = if recovering h then normal else h.alert_state;
    } in
    if f.update_state
    then record { monitor = m2; notices = []; reply = refused store_failed }
    else record {
      monitor = record m2 { row = update_heartbeat_state after };
      notices =
          ping_received success
          ∷ (changed_notice h.status up
              ++ (if recovering h then recovery_event ∷ recovery_callback ∷ [] else []));
      reply = ok after;
    }

unfoldable pub process_start_ping : Faults → ℕ → Monitor → Outcome
unfolding update_heartbeat_state update_execution
process_start_ping f now m =
    let h = m.row in
    let m1 =
      record_ping f
        (record { ping_type = start; code = none; payload = none; timestamp = in_seconds now }) m in
    let m2 = close_execution f (finished now none none timeout none) m1 in
    let m3 =
      add_execution f
        (record {
          started_at = some (in_seconds now);
          completed_at = none;
          duration_ms = none;
          code = none;
          outcome = in_progress;
          payload = none;
        })
        m2 in
    let after = record h {
      status = started;
      current_run_started_at = some now;
      next_deadline_at = some (deadline_from now h);
    } in
    if f.update_state
    then record { monitor = m3; notices = []; reply = refused store_failed }
    else record {
      monitor = record m3 { row = update_heartbeat_state after };
      notices = ping_received start ∷ changed_notice h.status started;
      reply = ok after;
    }

-- The fields that ProcessExitCodePing sets for the code `c`.
unfoldable pub exited : ℕ → ℕ → Heartbeat → Heartbeat
exited now c h = record h {
  status = up;
  last_ping_at = some now;
  next_deadline_at = some (deadline_from now h);
  last_exit_code = some c;
  last_duration_ms =
      if completes h then elapsed now h.current_run_started_at else h.last_duration_ms;
  current_run_started_at = if completes h then none else h.current_run_started_at;
  consecutive_successes = if eqb c 0 then h.consecutive_successes + 1 else 0;
  consecutive_failures = if eqb c 0 then 0 else h.consecutive_failures + 1;
  alert_state = if eqb c 0 then normal else alerting;
}

unfoldable pub exit_code_notices : ℕ → Heartbeat → List Notice
exit_code_notices c h =
    if not (eqb c 0)
    then alert_event ∷ alert_callback ∷ []
    else if recovering h
    then recovery_event ∷ recovery_callback ∷ []
    else []

unfoldable pub process_exit_code : Faults → ℕ → ℕ → Option (List ℕ) → Monitor → Outcome
unfolding exited exit_code_notices update_heartbeat_state update_execution get_current_execution
process_exit_code f now c payload m =
    let h = m.row in
    let after = exited now c h in
    let stored = filter_payload f.can_store_payload payload in
    let m1 =
      record_ping f
        (record {
          ping_type = exit_code;
          code = some c;
          payload = stored;
          timestamp = in_seconds now;
        })
        m in
    let m2 =
      end_execution f now (if completes h then elapsed now h.current_run_started_at else none) c
        (if eqb c 0 then succeeded else failed) stored m1 in
    if f.update_state
    then record { monitor = m2; notices = []; reply = refused store_failed }
    else record {
      monitor = record m2 { row = update_heartbeat_state after };
      notices = ping_received exit_code ∷ (changed_notice h.status up ++ exit_code_notices c h);
      reply = ok after;
    }

-- The range check comes before anything else.
unfoldable pub process_exit_code_ping : Faults → ℕ → ℤ → Option (List ℕ) → Monitor → Outcome
unfolding process_exit_code
process_exit_code_ping f now (negsuc n) payload m = record {
  monitor = m;
  notices = [];
  reply = refused invalid_exit_code;
}
process_exit_code_ping f now (pos c) payload m =
    if leb c 255
    then process_exit_code f now c payload m
    else record { monitor = m; notices = []; reply = refused invalid_exit_code }

unfoldable pub pause_heartbeat : Faults → Monitor → Outcome
pause_heartbeat f m =
    let after = record m.row { status = paused; alert_state = normal; next_deadline_at = none } in
    if f.update_state
    then record { monitor = m; notices = []; reply = refused store_failed }
    else record {
      monitor = record m { row = after };
      notices = status_changed m.row.status paused ∷ [];
      reply = ok after;
    }

abbrev is_paused : HeartbeatStatus → Bool
is_paused paused = true
is_paused _ = false

unfoldable pub resume_heartbeat : Faults → ℕ → Monitor → Outcome
resume_heartbeat f now m =
    let after = record m.row {
      status = up;
      next_deadline_at = some (in_seconds (deadline_from now m.row));
    } in
    if not (is_paused m.row.status)
    then record { monitor = m; notices = []; reply = refused invalid_input }
    else if f.update_state
    then record { monitor = m; notices = []; reply = refused store_failed }
    else record {
      monitor = record m { row = after };
      notices = status_changed paused up ∷ [];
      reply = ok after;
    }
