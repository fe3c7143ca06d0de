-- ===== src/Checks/EscalationRuns.antt =====
-- An escalation of two levels: a page after five minutes and another ten minutes later.
use pulseboard.Common.{
  String, string_eq, true, false, none, some, List, [], ◌∷◌, ◌≡◌, refl, arith, length,
  if◌then◌else◌,
}
use pulseboard.Common.Assoc.{lookup, insert}
use pulseboard.Alert.Model.{Alert, active, NotificationChannel}
use pulseboard.Escalation.Model.{Policy, run_active, exhausted, stopped_by_ack, Run, Acknowledgment}
use pulseboard.Escalation.Filters.{
  match_policy_filters, filters_intersect, sets_intersect, filters_intersect-match_policy_filters,
}
use pulseboard.Escalation.Store.{State, RunnerDeps, is_open_for}
use pulseboard.Escalation.Cycle.{evaluate_cycle}
use pulseboard.Escalation.Cycle.Selection.{IsTable}
use pulseboard.Escalation.Cycle.Machine.{on_run, after_cycle}
use pulseboard.Escalation.Cycle.Refinement.{lookup-evaluate_cycle}
use pulseboard.Escalation.Cycle.Progress.{
  IsFiring, Within, Spaced, cycles, status_of, cycles-exhausted,
}
use pulseboard.Escalation.Hooks.{on_alert_acknowledged}
use pulseboard.Escalation.Stops.{stopped, lookup-on_alert_acknowledged}
use pulseboard.Escalation.Steps.{
  Step, cycle, alert_created, alert_acknowledged, alert_resolved, send_done, perform_all,
}

abbrev pub outage : Alert
outage = record {
  id = "a1";
  source = "container";
  alert_type = "restart_loop";
  severity = "critical";
  status = active;
  message = "shop restarts";
  entity_type = "container";
  entity_id = "c1";
  entity_name = "shop";
  details = "{}";
  resolved_by_id = none;
  fired_at = 100;
  resolved_at = none;
}

abbrev pub pages : Policy
pages = record {
  id = "p1";
  name = "pages";
  filters = record { severities = "critical" ∷ []; scopes = []; tags = [] };
  levels =
      record { delay_seconds = 300; channel_ids = "ops" ∷ [] }
      ∷ record { delay_seconds = 600; channel_ids = "ops" ∷ "lead" ∷ [] }
      ∷ [];
}

abbrev calls : Policy
calls = record pages {
  id = "p2";
  filters = record {
    severities = [];
    scopes = record { kind = "container"; ref_id = "c1" } ∷ [];
    tags = "prod" ∷ [];
  };
}

pages_match : match_policy_filters outage pages ≡ true
unfolding match_policy_filters
pages_match = refl

calls_match : match_policy_filters outage calls ≡ true
unfolding match_policy_filters
calls_match = refl

filters_intersect-match_policy_filters_example :
    filters_intersect pages.filters calls.filters
    ≡ sets_intersect pages.filters.tags calls.filters.tags
filters_intersect-match_policy_filters_example =
    filters_intersect-match_policy_filters outage pages calls pages_match calls_match

abbrev any_channel : String → NotificationChannel
any_channel id = record { id = id; channel_type = "webhook"; url = "https://x"; enabled = true }

abbrev pub office : RunnerDeps
office = record {
  get_alert = λ id. some (some outage);
  get_channel = λ id. some (some (any_channel id));
  is_suppressed = λ s t i. false;
  active_policies = some (pages ∷ []);
  marshal = λ p. some "pages";
  unmarshal = λ s. some pages;
  new_id = λ used. "r1";
  ack_message = λ ack a. a.message;
  exhausted_message = λ a n. a.message;
  clock = 1000;
  orphan_timeout = 120;
  select_due_fails = false;
  select_active_fails = false;
  select_orphans_fails = false;
  select_run_fails = λ id. false;
  insert_run_fails = λ r. false;
  update_run_fails = λ id. false;
  insert_delivery_fails = λ r l c. false;
  update_delivery_fails = λ id. false;
}

abbrev fresh_run : Run
fresh_run = record {
  id = "r1";
  policy_id = some "p1";
  policy_snapshot_json = "pages";
  alert_id = "a1";
  status = run_active;
  last_executed_level_index = none;
  started_at = 100;
  ended_at = none;
  next_action_at = some 400;
}

abbrev one_run : State
one_run = record { runs = ("r1", fresh_run) ∷ []; deliveries = []; sends = [] }

one_run-IsTable : IsTable one_run
one_run-IsTable = ground arith

one_run_stored : lookup "r1" one_run.runs ≡ some fresh_run
unfolding lookup
one_run_stored = refl

fresh_run-IsFiring : IsFiring office fresh_run outage pages
fresh_run-IsFiring = ground arith

lookup-evaluate_cycle_example :
    lookup "r1" (evaluate_cycle office 420 one_run).runs
    ≡ on_run (after_cycle office 420) (lookup "r1" one_run.runs)
lookup-evaluate_cycle_example = lookup-evaluate_cycle office 420 "r1" one_run one_run-IsTable refl

cycles-exhausted_example :
    status_of (lookup "r1" (cycles office (400 ∷ 1000 ∷ 1600 ∷ []) one_run).runs) ≡ some exhausted
cycles-exhausted_example =
    cycles-exhausted office outage pages 600 400 (400 ∷ 1000 ∷ 1600 ∷ []) fresh_run one_run
      one_run-IsTable refl one_run_stored fresh_run-IsFiring refl refl refl pages-Within spaced
      (omega arith)
  where
    pages-Within : Within 600 pages.levels
    pages-Within = ground arith

    spaced : Spaced 600 400 (400 ∷ 1000 ∷ 1600 ∷ [])
    spaced = ground arith

abbrev by_ann : Acknowledgment
by_ann = record { by = "ann"; acknowledged_at = 1100 }

lookup-on_alert_acknowledged_example :
    lookup "r1" (on_alert_acknowledged office "a1" by_ann 1100 one_run).0.runs
    ≡ on_run
        (λ r. if is_open_for "a1" r then stopped office stopped_by_ack 1100 r else r)
        (lookup "r1" one_run.runs)
lookup-on_alert_acknowledged_example =
    lookup-on_alert_acknowledged office "a1" "r1" by_ann 1100 one_run one_run-IsTable refl

abbrev morning : List (RunnerDeps × Step)
morning =
    (office, alert_created outage 100)
    ∷ (office, cycle 400)
    ∷ (office, send_done 0 none)
    ∷ (office, cycle 1000)
    ∷ (office, alert_acknowledged "a1" by_ann 1100)
    ∷ (office, alert_resolved "a1" 1200)
    ∷ []

abbrev pub nothing : State
nothing = record { runs = []; deliveries = []; sends = [] }

-- The first page, the two of the second level, and the note of the acknowledgment to the same two.
morning_delivers : length (perform_all morning nothing).deliveries ≡ 5
unfolding perform_all insert lookup
morning_delivers = refl
