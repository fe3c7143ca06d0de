-- ===== src/Wiring/Heartbeats/Linked.antt =====
-- A heartbeat that is not alerting has no active alert.
use mathlib.Core.Path.{subst}
use pulseboard.Common.{
  ℕ, String, string_eq, Bool, true, false, not, ◌&&◌, ◌||◌, Option, none, some, List, [], ◌∷◌, ◌==◌,
  ◌≡◌, refl, ◌∙◌, sym, arith, if◌then◌else◌, eq_iff, ==_refl, ap,
}
use pulseboard.Common.Int.{ℤ, pos, negsuc}
use pulseboard.Alert.Model.{Event, ActiveAlertKey, key_eq, event_key}
use pulseboard.Alert.Engine.{Engine, process_event, resolve_by_entity}
use pulseboard.Alert.Engine.Invariant.{IsKeyed, process_event-IsKeyed}
use pulseboard.Alert.Engine.Standing.{stands, opened, process_event-opened}
use pulseboard.Alert.Engine.EntityRemoval.{resolve_by_entity-IsKeyed, resolve_by_entity-view}
use pulseboard.Alert.Engine.Refinement.{is_some}
use pulseboard.Heartbeat.Model.{
  is_alerting, Heartbeat, Monitor, Faults, Notice, ping_received, status_changed, recovery_event,
  alert_event, alert_callback, recovery_callback,
}
use pulseboard.Heartbeat.Pings.{
  process_ping, process_start_ping, process_exit_code_ping, pause_heartbeat, resume_heartbeat,
}
use pulseboard.Heartbeat.Deadlines.{
  check_deadline, Op, ping, start_ping, exit_code_ping, check, pause, resume, apply,
}
use pulseboard.Wiring.Heartbeats.{
  deadline_missed, exit_code_failure, Surroundings, heartbeat_alert_events, process_events,
  is_paused, on_notice, on_notices, notices_of, failure_of, run_ops,
}

abbrev pub heartbeat_key : String → String → ActiveAlertKey
heartbeat_key id alert_type = record {
  source = "heartbeat";
  alert_type = alert_type;
  entity_type = "heartbeat";
  entity_id = id;
}

abbrev pub is_failure : String → Bool
is_failure t = t == deadline_missed || t == exit_code_failure

process_events-opened :
    (w : Surroundings) (evts : List Event) (e : Engine) (k : ActiveAlertKey) (b : Bool)
    → IsKeyed e
    → (not (stands e k) || b) ≡ true
    → IsKeyed (process_events w evts e)
      × ((not (stands (process_events w evts e) k) || opened k b evts) ≡ true)
unfolding process_events
process_events-opened w [] e k b h s = (h, s)
process_events-opened w (evt ∷ evts) e k b h s =
    process_events-opened w evts (process_event (w.answers evt) evt e).0 k
      (if event_key evt == k then not evt.is_recover else b)
      (process_event-IsKeyed (w.answers evt) evt e h)
      (process_event-opened (w.answers evt) evt e k b h s)

-- What the notices leave open.
abbrev after_notice : Bool → Notice → Bool
after_notice b alert_callback = true
after_notice b recovery_callback = false
after_notice b (status_changed before now) = not (is_paused now) && b
after_notice b _ = b

abbrev after_notices : Bool → List Notice → Bool
after_notices b [] = b
after_notices b (n ∷ ns) = after_notices (after_notice b n) ns

-- An engine that may hold an alert under a key only if `b` holds.
abbrev Linked : ActiveAlertKey → Bool → Engine → Type 0
Linked k b e = IsKeyed e × ((not (stands e k) || b) ≡ true)

opened-recovery :
    (w : Surroundings) (h : Heartbeat) (t : String) (b : Bool)
    → is_failure t ≡ true
    → opened (heartbeat_key h.id t) b (heartbeat_alert_events w h "recovery" none) ≡ false
unfolding heartbeat_alert_events
opened-recovery w h t b i = ground (
  arith,
  i,
  ==_refl h.id,
  eq_iff t deadline_missed,
  eq_iff deadline_missed t,
  eq_iff t exit_code_failure,
  eq_iff exit_code_failure t,
)

resolve_by_entity-stands :
    (w : Surroundings) (id t : String) (e : Engine)
    → stands
        (resolve_by_entity w.resolve_deps w.updated w.now "heartbeat" id e).0
        (heartbeat_key id t)
      ≡ false
resolve_by_entity-stands w id t e =
    ap is_some (resolve_by_entity-view w.resolve_deps w.updated w.now (heartbeat_key id t) e)

if-Linked :
    (p b : Bool) (k : ActiveAlertKey) (e e' : Engine)
    → Linked k b e
    → IsKeyed e'
    → stands e' k ≡ false
    → Linked k (not p && b) (if p then e' else e)
if-Linked true b k e e' l h s = (h, ground (arith, s))
if-Linked false b k e e' l h s = l

on_notice-Linked :
    (w : Surroundings) (h : Heartbeat) (failure t : String) (n : Notice) (b : Bool) (e : Engine)
    → is_failure t ≡ true
    → Linked (heartbeat_key h.id t) b e
    → Linked (heartbeat_key h.id t) (after_notice b n) (on_notice w h failure n e)
unfolding on_notice heartbeat_alert_events
on_notice-Linked w h failure t alert_callback b e i (k, l) =
    let evts = heartbeat_alert_events w h "alert" (some failure) in
    let (k', l') = process_events-opened w evts e (heartbeat_key h.id t) b k l in (k', ground arith)
on_notice-Linked w h failure t recovery_callback b e i (k, l) =
    let evts = heartbeat_alert_events w h "recovery" none in
    let (k', l') = process_events-opened w evts e (heartbeat_key h.id t) b k l in
    (k', ground (arith, l', opened-recovery w h t b i))
on_notice-Linked w h failure t (status_changed before now) b e i (k, l) =
    if-Linked (is_paused now) b (heartbeat_key h.id t) e _ (k, l)
      (resolve_by_entity-IsKeyed w.resolve_deps w.updated w.now "heartbeat" h.id e k)
      (resolve_by_entity-stands w h.id t e)
on_notice-Linked w h failure t (ping_received kind) b e i l = l
on_notice-Linked w h failure t recovery_event b e i l = l
on_notice-Linked w h failure t alert_event b e i l = l

on_notices-Linked :
    (w : Surroundings) (h : Heartbeat) (failure t : String) (ns : List Notice) (b : Bool)
    (e : Engine)
    → is_failure t ≡ true
    → Linked (heartbeat_key h.id t) b e
    → Linked (heartbeat_key h.id t) (after_notices b ns) (on_notices w h failure ns e)
unfolding on_notices
on_notices-Linked w h failure t [] b e i l = l
on_notices-Linked w h failure t (n ∷ ns) b e i l =
    on_notices-Linked w h failure t ns (after_notice b n) (on_notice w h failure n e) i
      (on_notice-Linked w h failure t n b e i l)

-- An operation keeps the heartbeat's id, and leaves an alert open only if the heartbeat is alerting.
abbrev KeepsAlert : Monitor → List Notice → Monitor → Type 0
KeepsAlert m ns m' =
    (m'.row.id ≡ m.row.id)
    × ((not (after_notices (is_alerting m.row.alert_state) ns) || is_alerting m'.row.alert_state)
        ≡ true)

module _ (f : Faults) (now : ℕ) (m : Monitor) where
  process_ping-KeepsAlert :
      (p : Option (List ℕ))
      → KeepsAlert m (process_ping f now p m).notices (process_ping f now p m).monitor
  unfolding process_ping
  process_ping-KeepsAlert p = ground arith

  process_start_ping-KeepsAlert :
      KeepsAlert m (process_start_ping f now m).notices (process_start_ping f now m).monitor
  unfolding process_start_ping
  process_start_ping-KeepsAlert = ground arith

  process_exit_code_ping-KeepsAlert :
      (c : ℤ) (p : Option (List ℕ))
      → KeepsAlert m
          (process_exit_code_ping f now c p m).notices
          (process_exit_code_ping f now c p m).monitor
  unfolding process_exit_code_ping
  process_exit_code_ping-KeepsAlert (negsuc n) p = ground arith
  process_exit_code_ping-KeepsAlert (pos c) p = ground arith

  check_deadline-KeepsAlert : KeepsAlert m (check_deadline f now m).1 (check_deadline f now m).0
  unfolding check_deadline
  check_deadline-KeepsAlert = ground arith

  pause_heartbeat-KeepsAlert :
      KeepsAlert m (pause_heartbeat f m).notices (pause_heartbeat f m).monitor
  unfolding pause_heartbeat
  pause_heartbeat-KeepsAlert = ground arith

  resume_heartbeat-KeepsAlert :
      KeepsAlert m (resume_heartbeat f now m).notices (resume_heartbeat f now m).monitor
  unfolding resume_heartbeat
  resume_heartbeat-KeepsAlert = ground arith

apply-KeepsAlert :
    (f : Faults) (now : ℕ) (op : Op) (m : Monitor)
    → KeepsAlert m (notices_of f now op m) (apply f now op m)
unfolding notices_of apply
apply-KeepsAlert f now (ping p) m = process_ping-KeepsAlert f now m p
apply-KeepsAlert f now start_ping m = process_start_ping-KeepsAlert f now m
apply-KeepsAlert f now (exit_code_ping c p) m = process_exit_code_ping-KeepsAlert f now m c p
apply-KeepsAlert f now check m = check_deadline-KeepsAlert f now m
apply-KeepsAlert f now pause m = pause_heartbeat-KeepsAlert f now m
apply-KeepsAlert f now resume m = resume_heartbeat-KeepsAlert f now m

on_notices-id :
    (w : Surroundings) (h : Heartbeat) (failure t id : String) (ns : List Notice) (b : Bool)
    (e : Engine)
    → is_failure t ≡ true
    → h.id ≡ id
    → Linked (heartbeat_key id t) b e
    → Linked (heartbeat_key id t) (after_notices b ns) (on_notices w h failure ns e)
on_notices-id w h failure t id ns b e i p l =
    subst (λ id. Linked (heartbeat_key id t) (after_notices b ns) (on_notices w h failure ns e)) p
      (on_notices-Linked w h failure t ns b e i
        (subst (λ id. Linked (heartbeat_key id t) b e) (sym p) l))

run_ops-Linked :
    (ops : List (Surroundings × Faults × ℕ × Op)) (m : Monitor) (e : Engine) (t id : String)
    → is_failure t ≡ true
    → m.row.id ≡ id
    → Linked (heartbeat_key id t) (is_alerting m.row.alert_state) e
    → Linked
        (heartbeat_key id t)
        (is_alerting (run_ops ops m e).0.row.alert_state)
        (run_ops ops m e).1
unfolding run_ops
run_ops-Linked [] m e t id i p l = l
run_ops-Linked ((w, f, now, op) ∷ ops) m e t id i p l =
    let ns = notices_of f now op m in
    let (same, kept) = apply-KeepsAlert f now op m in
    let (h', l') =
      on_notices-id w m.row (failure_of op) t id ns (is_alerting m.row.alert_state) e i p l in
    run_ops-Linked ops (apply f now op m) (on_notices w m.row (failure_of op) ns e) t id i
      (same ∙ p) (h', ground (arith, l', kept))

-- A heartbeat that is not alerting has no active alert: if the engine takes what the callbacks of
-- each operation send before the next operation runs, then, whatever the pings, checks, pauses and
-- resumes of a heartbeat, their faults and the answers that the engine gets, an alert on a missed
-- deadline or an exit code is active after them only if the heartbeat is alerting, given that this
-- holds before them.
pub run_ops-alerting :
    (ops : List (Surroundings × Faults × ℕ × Op)) (m : Monitor) (e : Engine) (t : String)
    → is_failure t ≡ true
    → IsKeyed e
    → (not (stands e (heartbeat_key m.row.id t)) || is_alerting m.row.alert_state) ≡ true
    → (not (stands (run_ops ops m e).1 (heartbeat_key m.row.id t))
        || is_alerting (run_ops ops m e).0.row.alert_state)
      ≡ true
run_ops-alerting ops m e t i h l = (run_ops-Linked ops m e t m.row.id i refl (h, l)).1
