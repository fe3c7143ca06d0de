-- ===== src/Swarm/CrashLoop/Alerts.antt =====
-- The crash-loop alerts in the alert engine: the events name no entity id, so the alerts of all
-- services share one key.
use pulseboard.Common.{
  ℕ, String, string_eq, Bool, true, false, List, [], ◌∷◌, ◌≡◌, refl, ap, arith, ltb, length,
  if◌then◌else◌,
}
use pulseboard.Alert.Model.{Event, ActiveAlertKey, key_eq}
use pulseboard.Alert.Deps.{Deps}
use pulseboard.Alert.Engine.{Engine, run}
use pulseboard.Alert.Engine.Invariant.{IsKeyed}
use pulseboard.Alert.Engine.Standing.{stands, events_of, opened, run-opened}
use pulseboard.Swarm.CrashLoop.{Detector, check_recoveries}

abbrev pub crash_loop_key : ActiveAlertKey
crash_loop_key = record {
  source = "swarm";
  alert_type = "crash_loop";
  entity_type = "swarm_service";
  entity_id = "";
}

opened-check_recoveries :
    (text : String → ℕ → String) (now : ℕ) (d : Detector) (b : Bool)
    → opened crash_loop_key b (check_recoveries text now d).1
      ≡ (if ltb 0 (length (check_recoveries text now d).1) then false else b)
unfolding check_recoveries
opened-check_recoveries text now [] b = refl
opened-check_recoveries text now ((id, st) ∷ d) b =
    ground (arith, opened-check_recoveries text now d b, opened-check_recoveries text now d false)

-- Where a look for recoveries finds at least one recovered service, no crash-loop alert is active
-- once the engine has processed its events, however many other services still crash in a loop.
pub check_recoveries-stands :
    (text : String → ℕ → String) (now : ℕ) (d : Detector) (evts : List (Deps × Event)) (e : Engine)
    → IsKeyed e
    → events_of evts ≡ (check_recoveries text now d).1
    → ltb 0 (length (check_recoveries text now d).1) ≡ true
    → stands (run evts e).0 crash_loop_key ≡ false
check_recoveries-stands text now d evts e h q p = ground (
  arith,
  run-opened evts e crash_loop_key true h (ground arith),
  ap (opened crash_loop_key true) q,
  opened-check_recoveries text now d true,
  p,
)
