-- ===== src/Wiring/Heartbeats.antt =====
-- The callbacks of the heartbeat service, and a heartbeat together with the alert engine.
pub mod Linked
use pulseboard.Common.{
  ℕ, String, string_eq, Bool, true, false, Option, none, some, List, [], ◌∷◌, ◌==◌, if◌then◌else◌,
}
use pulseboard.Alert.Model.{severity_critical, severity_info, Event}
use pulseboard.Alert.Deps.{Deps}
use pulseboard.Alert.Engine.{Engine, process_event, resolve_by_entity}
use pulseboard.Heartbeat.Model.{
  HeartbeatStatus, paused, Heartbeat, Monitor, Faults, Notice, ping_received, status_changed,
  recovery_event, alert_event, alert_callback, recovery_callback,
}
use pulseboard.Heartbeat.Pings.{
  process_ping, process_start_ping, process_exit_code_ping, pause_heartbeat, resume_heartbeat,
}
use pulseboard.Heartbeat.Deadlines.{
  check_deadline, Op, ping, start_ping, exit_code_ping, check, pause, resume, apply,
}

abbrev pub deadline_missed : String
deadline_missed = "deadline_missed"

abbrev pub exit_code_failure : String
exit_code_failure = "exit_code_failure"

-- What comes from outside while one operation is handled: the answers that an event gets, those
-- that ResolveByEntity gets, the texts that only people read, and the time.
pub record Surroundings : Type 0 where
  pub answers : Event → Deps
  pub resolve_deps : Deps
  pub updated : String → Bool
  pub message : String → String → String
  pub details : Option String
  pub now : ℕ

abbrev heartbeat_event : Surroundings → Heartbeat → String → Bool → String → String → Event
heartbeat_event w h alert_type is_recover severity message = record {
  source = "heartbeat";
  alert_type = alert_type;
  severity = severity;
  is_recover = is_recover;
  message = message;
  entity_type = "heartbeat";
  entity_id = h.id;
  entity_name = h.name;
  details = w.details;
  timestamp = w.now;
}

abbrev or_deadline_missed : Option String → String
or_deadline_missed none = deadline_missed
or_deadline_missed (some t) = t

-- heartbeatAlertEvents: `named` is the "alert_type" of the details.
unfoldable pub heartbeat_alert_events :
    Surroundings → Heartbeat → String → Option String → List Event
heartbeat_alert_events w h alert_type named =
    let failure = or_deadline_missed named in
    if alert_type == "recovery"
    then heartbeat_event w h deadline_missed true severity_info (w.message "recovery" h.name)
      ∷ heartbeat_event w h exit_code_failure true severity_info (w.message "recovery" h.name)
      ∷ []
    else heartbeat_event w h failure false severity_critical (w.message failure h.name) ∷ []

-- The engine takes the events from its channel one after the other.
unfoldable pub process_events : Surroundings → List Event → Engine → Engine
process_events w [] e = e
process_events w (evt ∷ evts) e = process_events w evts (process_event (w.answers evt) evt e).0

abbrev is_paused : HeartbeatStatus → Bool
is_paused paused = true
is_paused _ = false

-- SetAlertCallback and SetEventCallback of the heartbeat service, but for the deletion of a heartbeat,
-- which is no operation here. `failure` is the type that the
-- operation puts in the details of its alert.
unfoldable pub on_notice : Surroundings → Heartbeat → String → Notice → Engine → Engine
unfolding heartbeat_alert_events process_events
on_notice w h failure alert_callback e =
    process_events w (heartbeat_alert_events w h "alert" (some failure)) e
on_notice w h failure recovery_callback e =
    process_events w (heartbeat_alert_events w h "recovery" none) e
on_notice w h failure (status_changed before now) e =
    if is_paused now
    then (resolve_by_entity w.resolve_deps w.updated w.now "heartbeat" h.id e).0
    else e
on_notice w h failure (ping_received kind) e = e
on_notice w h failure recovery_event e = e
on_notice w h failure alert_event e = e

unfoldable pub on_notices : Surroundings → Heartbeat → String → List Notice → Engine → Engine
unfolding on_notice
on_notices w h failure [] e = e
on_notices w h failure (n ∷ ns) e = on_notices w h failure ns (on_notice w h failure n e)

-- What an operation tells the callbacks.
unfoldable pub notices_of : Faults → ℕ → Op → Monitor → List Notice
unfolding process_ping process_start_ping process_exit_code_ping check_deadline pause_heartbeat
    resume_heartbeat
notices_of f now (ping p) m = (process_ping f now p m).notices
notices_of f now start_ping m = (process_start_ping f now m).notices
notices_of f now (exit_code_ping c p) m = (process_exit_code_ping f now c p m).notices
notices_of f now check m = (check_deadline f now m).1
notices_of f now pause m = (pause_heartbeat f m).notices
notices_of f now resume m = (resume_heartbeat f now m).notices

abbrev pub failure_of : Op → String
failure_of (exit_code_ping c p) = exit_code_failure
failure_of _ = deadline_missed

-- A heartbeat and the engine: each operation, with what the engine makes of it.
unfoldable pub run_ops : List (Surroundings × Faults × ℕ × Op) → Monitor → Engine → Monitor × Engine
unfolding on_notices notices_of apply
run_ops [] m e = (m, e)
run_ops ((w, f, now, op) ∷ ops) m e =
    run_ops ops (apply f now op m) (on_notices w m.row (failure_of op) (notices_of f now op m) e)
