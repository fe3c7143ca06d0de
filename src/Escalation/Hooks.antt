-- ===== src/Escalation/Hooks.antt =====
-- The hooks of internal/alert/escalation/runner.go that the alert engine and the API call.
use pulseboard.Common.{
  ℕ, ◌+◌, String, string_eq, Bool, true, false, not, ◌||◌, Option, none, some, List, [], ◌∷◌, ◌==◌,
  contains, get_elem?, if◌then◌else◌,
}
use pulseboard.Common.Assoc.{insert}
use pulseboard.Alert.Model.{Alert, resolved}
use pulseboard.Escalation.Model.{
  Level, Policy, run_active, stopped_by_ack, stopped_by_resolution, Run, Acknowledgment,
}
use pulseboard.Escalation.Filters.{match_policy_filters}
use pulseboard.Escalation.Store.{
  State, RunnerDeps, write_run, terminated, select_active_runs_by_alert, run_ids,
}
use pulseboard.Escalation.Runner.{special_level_ack, dispatch_all}

-- The policies of the runs.
abbrev pub covered : List Run → List String
covered [] = []
covered (r ∷ rs) = elim r.policy_id [ none ↦ covered rs | some id ↦ id ∷ covered rs ]

abbrev pub new_run : String → String → Alert → Policy → Level → ℕ → Run
new_run id snapshot a p first now = record {
  id = id;
  policy_id = some p.id;
  policy_snapshot_json = snapshot;
  alert_id = a.id;
  status = run_active;
  last_executed_level_index = none;
  started_at = now;
  ended_at = none;
  next_action_at = some (now + first.delay_seconds);
}

abbrev pub insert_run : RunnerDeps → Run → State → State
insert_run d run s =
    if d.insert_run_fails run then s else record s { runs = insert run.id run s.runs }

abbrev pub start_run :
    RunnerDeps → Alert → ℕ → Policy → Option Level → Option String → State → State
start_run d a now p (some first) (some snapshot) s =
    insert_run d (new_run (d.new_id (run_ids s.runs)) snapshot a p first now) s
start_run d a now p _ _ s = s

unfoldable pub start_runs : RunnerDeps → List String → Alert → ℕ → List Policy → State → State
unfolding match_policy_filters
start_runs d seen a now [] s = s
start_runs d seen a now (p ∷ ps) s = start_runs d seen a now ps (
    if contains seen p.id || not (match_policy_filters a p)
    then s
    else start_run d a now p (get_elem? p.levels 0) (d.marshal p) s)

-- Whether the hook returns an error stands beside the state.
unfoldable pub on_alert_created : RunnerDeps → Alert → ℕ → State → State × Bool
unfolding start_runs select_active_runs_by_alert
on_alert_created d a now s =
    if a.id == ""
    then (s, false)
    else if d.select_active_fails
    then (s, true)
    else elim d.active_policies [
      | none ↦ (s, true)
      | some ps ↦ (start_runs d (covered (select_active_runs_by_alert a.id s)) a now ps s, false)
    ]

abbrev pub ack_alert : RunnerDeps → Acknowledgment → Alert → Alert
ack_alert d ack a = record a { status = resolved; message = d.ack_message ack a }

-- The channels of the level that a run executed last, as its snapshot has them.
abbrev pub last_channels : RunnerDeps → Run → List String
last_channels d run = elim run.last_executed_level_index [
  | none ↦ []
  | some i ↦ elim (d.unmarshal run.policy_snapshot_json) [
    | none ↦ []
    | some policy ↦ elim (get_elem? policy.levels i) [ none ↦ [] | some l ↦ l.channel_ids ]
  ]
]

abbrev pub announce_ack : RunnerDeps → Acknowledgment → Run → Option (Option Alert) → State → State
announce_ack d ack run (some (some a)) s =
    dispatch_all d run.id special_level_ack (last_channels d run) (ack_alert d ack a) s
announce_ack d ack run _ s = s

unfoldable pub stop_by_ack :
    RunnerDeps → Acknowledgment → Option (Option Alert) → ℕ → List Run → State → State
unfolding write_run dispatch_all
stop_by_ack d ack a now [] s = s
stop_by_ack d ack a now (run ∷ runs) s = stop_by_ack d ack a now runs (
    if d.update_run_fails run.id
    then s
    else announce_ack d ack run a (write_run d run.id (terminated stopped_by_ack now) s))

unfoldable pub on_alert_acknowledged :
    RunnerDeps → String → Acknowledgment → ℕ → State → State × Bool
unfolding stop_by_ack select_active_runs_by_alert
on_alert_acknowledged d alert_id ack now s = if d.select_active_fails then (s, true) else (
  stop_by_ack d ack (d.get_alert alert_id) now (select_active_runs_by_alert alert_id s) s,
  false,
)

unfoldable pub stop_by_resolution : RunnerDeps → ℕ → List Run → State → State
unfolding write_run
stop_by_resolution d resolved_at [] s = s
stop_by_resolution d resolved_at (run ∷ runs) s =
    stop_by_resolution d resolved_at runs
      (write_run d run.id (terminated stopped_by_resolution resolved_at) s)

unfoldable pub on_alert_resolved : RunnerDeps → String → ℕ → State → State × Bool
unfolding stop_by_resolution select_active_runs_by_alert
on_alert_resolved d alert_id resolved_at s =
    if d.select_active_fails
    then (s, true)
    else (stop_by_resolution d resolved_at (select_active_runs_by_alert alert_id s) s, false)
