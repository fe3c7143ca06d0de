-- ===== src/Heartbeat/Deadlines/Soundness.antt =====
-- What holds of every heartbeat between two operations.
use pulseboard.Common.{
  ℕ, suc, ◌-◌, ◌≤◌, true, false, Option, none, some, List, [], ◌∷◌, ◌≡◌, refl, ◌⊎◌, arith,
  if◌then◌else◌, eqb,
}
use pulseboard.Common.Int.{ℤ, pos, negsuc}
use pulseboard.Heartbeat.Model.{
  up, down, started, paused, timeout, ExecutionOutcome, exit_code, in_seconds, succeeded, failed,
  normal, alerting, Heartbeat, HeartbeatExecution, Monitor, is_in_progress, Faults,
  update_execution,
}
use pulseboard.Heartbeat.Pings.{
  filter_payload, is_some, process_ping, process_start_ping, process_exit_code_ping,
  pause_heartbeat, resume_heartbeat, finished, pinged, completes, elapsed, end_execution,
  record_ping,
}
use pulseboard.Heartbeat.Deadlines.{
  check_deadline, Op, ping, start_ping, exit_code_ping, check, pause, resume, apply, apply_all,
}

pub record IsSound (h : Heartbeat) : Type 0 where
  -- A monitored heartbeat has a deadline.
  pub up_watched : h.status ≡ up → is_some h.next_deadline_at ≡ true
  pub started_watched : h.status ≡ started → is_some h.next_deadline_at ≡ true
  -- A run that was started has its start.
  pub run_known : h.status ≡ started → is_some h.current_run_started_at ≡ true
  -- One of the two streaks is broken.
  pub one_streak : (h.consecutive_failures ≡ 0) ⊎ (h.consecutive_successes ≡ 0)
  pub down_alerts : h.status ≡ down → h.alert_state ≡ alerting
  pub paused_quiet : h.status ≡ paused → h.alert_state ≡ normal
  pub paused_unwatched : h.status ≡ paused → h.next_deadline_at ≡ none

module _ (f : Faults) (now : ℕ) (m : Monitor) (h : IsSound m.row) where
  ping-IsSound : (p : Option (List ℕ)) → IsSound (process_ping f now p m).monitor.row
  unfolding process_ping
  ping-IsSound p = ground arith

  start_ping-IsSound : IsSound (process_start_ping f now m).monitor.row
  unfolding process_start_ping
  start_ping-IsSound = ground arith

  exit_code_ping-IsSound :
      (c : ℤ) (p : Option (List ℕ)) → IsSound (process_exit_code_ping f now c p m).monitor.row
  unfolding process_exit_code_ping
  exit_code_ping-IsSound (negsuc n) p = h
  exit_code_ping-IsSound (pos c) p = ground arith

  check-IsSound : IsSound (check_deadline f now m).0.row
  unfolding check_deadline
  check-IsSound = ground arith

  pause-IsSound : IsSound (pause_heartbeat f m).monitor.row
  unfolding pause_heartbeat
  pause-IsSound = ground arith

  resume-IsSound : IsSound (resume_heartbeat f now m).monitor.row
  unfolding resume_heartbeat
  resume-IsSound = ground arith

apply-IsSound :
    (f : Faults) (now : ℕ) (op : Op) (m : Monitor) → IsSound m.row → IsSound (apply f now op m).row
unfolding apply
apply-IsSound f now (ping p) m h = ping-IsSound f now m h p
apply-IsSound f now start_ping m h = start_ping-IsSound f now m h
apply-IsSound f now (exit_code_ping c p) m h = exit_code_ping-IsSound f now m h c p
apply-IsSound f now check m h = check-IsSound f now m h
apply-IsSound f now pause m h = pause-IsSound f now m h
apply-IsSound f now resume m h = resume-IsSound f now m h

-- Whatever the pings, checks, pauses and resumes of a sound heartbeat, at whatever times and with
-- whatever failures of the store, its row stays sound: while up or started it has a deadline, a
-- started run has its start, at most one streak is running, down means alerting, and paused means
-- no alert and no deadline.
pub apply_all-IsSound :
    (ops : List (Faults × ℕ × Op)) (m : Monitor) → IsSound m.row → IsSound (apply_all ops m).row
unfolding apply_all
apply_all-IsSound [] m h = h
apply_all-IsSound ((f, now, op) ∷ ops) m h =
    apply_all-IsSound ops (apply f now op m) (apply-IsSound f now op m h)

-- The executions in progress.
abbrev pub open_runs : List HeartbeatExecution → ℕ
open_runs [] = 0
open_runs (x ∷ xs) = if is_in_progress x.outcome then suc (open_runs xs) else open_runs xs

-- No call on the executions fails.
pub record Works (f : Faults) : Type 0 where
  pub reads : f.get_execution ≡ false
  pub updates : f.update_execution ≡ false

-- Closing the newest run takes one away, if there is one.
open_runs-update_execution :
    (change : HeartbeatExecution → HeartbeatExecution) (xs : List HeartbeatExecution)
    → ((x : HeartbeatExecution) → is_in_progress (change x).outcome ≡ false)
    → open_runs (update_execution change xs) ≡ open_runs xs - 1
unfolding update_execution
open_runs-update_execution change [] c = omega arith
open_runs-update_execution change (x ∷ xs) c =
    ground (arith, c x, open_runs-update_execution change xs c)

end_execution-open_runs :
    (f : Faults) (now : ℕ) (d : Option ℕ) (c : ℕ) (o : ExecutionOutcome) (p : Option (List ℕ))
    (m : Monitor)
    → is_in_progress o ≡ false
    → open_runs m.executions ≤ 1
    → open_runs (end_execution f now d c o p m).executions ≤ 1
end_execution-open_runs f now d c o p m e h =
    ground (arith, open_runs-update_execution (finished now d (some c) o p) m.executions (λ x. e))

module _ (f : Faults) (now : ℕ) (m : Monitor) (w : Works f) (h : open_runs m.executions ≤ 1) where
  ping-open_runs : (p : Option (List ℕ)) → open_runs (process_ping f now p m).monitor.executions ≤ 1
  unfolding process_ping
  ping-open_runs p = ground (
    arith,
    open_runs-update_execution
        (finished now (pinged now m.row).last_duration_ms none succeeded
          (filter_payload f.can_store_payload p))
        m.executions (λ x. refl),
  )

  start_ping-open_runs : open_runs (process_start_ping f now m).monitor.executions ≤ 1
  unfolding process_start_ping
  start_ping-open_runs = ground (
    arith,
    open_runs-update_execution (finished now none none timeout none) m.executions (λ x. refl),
  )

  exit_code_ping-open_runs :
      (c : ℤ) (p : Option (List ℕ))
      → open_runs (process_exit_code_ping f now c p m).monitor.executions ≤ 1
  unfolding process_exit_code_ping
  exit_code_ping-open_runs (negsuc n) p = h
  exit_code_ping-open_runs (pos c) p = ground (
    arith,
    end_execution-open_runs f now
        (if completes m.row then elapsed now m.row.current_run_started_at else none) c
        (if eqb c 0 then succeeded else failed) (filter_payload f.can_store_payload p)
        (record_ping f
          (record {
            ping_type = exit_code;
            code = some c;
            payload = filter_payload f.can_store_payload p;
            timestamp = in_seconds now;
          })
          m)
        (ground arith) (ground arith),
  )

  check-open_runs : open_runs (check_deadline f now m).0.executions ≤ 1
  unfolding check_deadline
  check-open_runs = ground (
    arith,
    open_runs-update_execution (finished now none none timeout none) m.executions (λ x. refl),
  )

  pause-open_runs : open_runs (pause_heartbeat f m).monitor.executions ≤ 1
  unfolding pause_heartbeat
  pause-open_runs = ground arith

  resume-open_runs : open_runs (resume_heartbeat f now m).monitor.executions ≤ 1
  unfolding resume_heartbeat
  resume-open_runs = ground arith

apply-open_runs :
    (f : Faults) (now : ℕ) (op : Op) (m : Monitor)
    → Works f
    → open_runs m.executions ≤ 1
    → open_runs (apply f now op m).executions ≤ 1
unfolding apply
apply-open_runs f now (ping p) m w h = ping-open_runs f now m w h p
apply-open_runs f now start_ping m w h = start_ping-open_runs f now m w h
apply-open_runs f now (exit_code_ping c p) m w h = exit_code_ping-open_runs f now m w h c p
apply-open_runs f now check m w h = check-open_runs f now m w h
apply-open_runs f now pause m w h = pause-open_runs f now m w h
apply-open_runs f now resume m w h = resume-open_runs f now m w h

abbrev pub AllWork : List (Faults × ℕ × Op) → Type 0
AllWork [] = Unit
AllWork ((f, now, op) ∷ ops) = Works f × AllWork ops

-- As long as the store can find and close executions, a heartbeat that starts with at most one
-- execution in progress never has two.
pub apply_all-open_runs :
    (ops : List (Faults × ℕ × Op)) (m : Monitor)
    → AllWork ops
    → open_runs m.executions ≤ 1
    → open_runs (apply_all ops m).executions ≤ 1
unfolding apply_all
apply_all-open_runs [] m w h = h
apply_all-open_runs ((f, now, op) ∷ ops) m (w, ws) h =
    apply_all-open_runs ops (apply f now op m) ws (apply-open_runs f now op m w h)
