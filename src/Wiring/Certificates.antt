-- ===== src/Wiring/Certificates.antt =====
-- The callback of the certificate service, and what its checks and the alert engine amount to
-- together.
use mathlib.Core.Path.{subst}
use pulseboard.Common.{
  ℕ, String, string_eq, Bool, true, false, not, ◌&&◌, ◌||◌, Option, none, some, List, [], ◌∷◌, ◌++◌,
  ◌==◌, ◌≡◌, refl, ◌∙◌, sym, ap, arith, all, select, if◌then◌else◌, eq_iff, ==_refl,
}
use pulseboard.Common.Int.{ℤ}
use pulseboard.Alert.Model.{
  severity_critical, severity_info, Event, ActiveAlertKey, key_eq, event_key,
}
use pulseboard.Alert.Deps.{Deps}
use pulseboard.Alert.Engine.{Engine, run}
use pulseboard.Alert.Engine.Invariant.{IsKeyed}
use pulseboard.Alert.Engine.Standing.{
  stands, events_of, recovers, opened, run-stands, run-opened, opened-select,
}
use pulseboard.Certificate.Model.{
  CertMonitor, AlertKind, chain_invalid, hostname_mismatch, ocsp_revoked, cert_expired,
  cert_expiring, CertEvent, cert_alert, cert_recovery, check_completed, status_changed,
}
use pulseboard.Certificate.Service.{Calls, Check, run_checks}
use pulseboard.Certificate.Service.Escalation.{is_set, in_order, after_events, run_checks-Follows}

abbrev pub alert_type_of : AlertKind → String
alert_type_of chain_invalid = "chain_invalid"
alert_type_of hostname_mismatch = "hostname_mismatch"
alert_type_of ocsp_revoked = "ocsp_revoked"
alert_type_of cert_expired = "expired"
alert_type_of cert_expiring = "expiring"

-- The texts that only people read, and the time.
pub record Report : Type 0 where
  pub message : CertEvent → String
  pub details : CertEvent → String
  pub now : ℕ

abbrev pub certificate_key : String → String → ActiveAlertKey
certificate_key monitor_id alert_type = record {
  source = "certificate";
  alert_type = alert_type;
  entity_type = "certificate";
  entity_id = monitor_id;
}

abbrev certificate_event : Report → CertMonitor → String → String → Bool → CertEvent → Event
certificate_event report m alert_type severity is_recover e = record {
  source = "certificate";
  alert_type = alert_type;
  severity = severity;
  is_recover = is_recover;
  message = report.message e;
  entity_type = "certificate";
  entity_id = m.id;
  entity_name = m.hostname;
  details = some (report.details e);
  timestamp = report.now;
}

-- The callback given to the certificate service: the alert events that it sends.
unfoldable pub on_certificate_event : Report → CertMonitor → CertEvent → List Event
on_certificate_event report m (cert_alert kind severity threshold) =
    certificate_event report m (alert_type_of kind)
      (if severity == "" then severity_critical else severity) false
      (cert_alert kind severity threshold)
    ∷ []
on_certificate_event report m cert_recovery =
    certificate_event report m "expiring" severity_info true cert_recovery ∷ []
on_certificate_event report m (check_completed status) = []
on_certificate_event report m (status_changed before now) = []

unfoldable pub on_certificate_events : Report → CertMonitor → List CertEvent → List Event
unfolding on_certificate_event
on_certificate_events report m [] = []
on_certificate_events report m (e ∷ es) =
    on_certificate_event report m e ++ on_certificate_events report m es

-- The events of one certificate monitor, among those of everything else.
abbrev pub is_of : String → Event → Bool
is_of monitor_id evt =
    evt.source == "certificate" && (evt.entity_type == "certificate" && evt.entity_id == monitor_id)

-- Recoveries are of type "expiring" alone.
on_certificate_events-recovers :
    (report : Report) (m : CertMonitor) (t : String) (es : List CertEvent)
    → (t == "expiring") ≡ false
    → all (λ evt. not (recovers (certificate_key m.id t) evt)) (on_certificate_events report m es)
      ≡ true
unfolding on_certificate_events
on_certificate_events-recovers report m t [] h = refl
on_certificate_events-recovers report m t (cert_alert kind severity threshold ∷ es) h =
    ground (arith, on_certificate_events-recovers report m t es h)
on_certificate_events-recovers report m t (cert_recovery ∷ es) h = ground (
  arith,
  h,
  on_certificate_events-recovers report m t es h,
  eq_iff "expiring" t,
  eq_iff t "expiring",
)
on_certificate_events-recovers report m t (check_completed status ∷ es) h =
    on_certificate_events-recovers report m t es h
on_certificate_events-recovers report m t (status_changed before now ∷ es) h =
    on_certificate_events-recovers report m t es h

-- What holds of the selected events holds of all, if the others are not concerned.
all-select :
    (p q : Event → Bool) (evts : List Event)
    → all (λ evt. p evt || q evt) evts ≡ true
    → all q (select p evts) ≡ true
    → all q evts ≡ true
all-select p q [] h a = refl
all-select p q (evt ∷ evts) h a = ground (arith, h, a, all-select p q evts)

key-is_of :
    (id t : String) (evts : List Event)
    → all (λ evt. is_of id evt || not (event_key evt == certificate_key id t)) evts ≡ true
key-is_of id t [] = refl
key-is_of id t (evt ∷ evts) = ground (arith, key-is_of id t evts)

key-recovers :
    (id t : String) (evts : List Event)
    → all (λ evt. is_of id evt || not (recovers (certificate_key id t) evt)) evts ≡ true
key-recovers id t [] = refl
key-recovers id t (evt ∷ evts) = ground (arith, key-recovers id t evts)

-- An alert of a certificate monitor that is not of type "expiring" (an expired certificate, a
-- broken chain, another host name, a revoked certificate) stays active whatever later checks of the
-- monitor find: if the engine receives, of this monitor, exactly the events that the checks make,
-- among any events of others, the alert still stands afterwards. That the monitor is deleted, which
-- resolves its alerts, is not among what happens.
pub run_checks-stands :
    (c : Calls) (report : Report) (checks : List Check) (m : CertMonitor)
    (evts : List (Deps × Event)) (e : Engine) (alert_type : String)
    → IsKeyed e
    → select (is_of m.id) (events_of evts)
      ≡ on_certificate_events report m (run_checks c checks m).1
    → (alert_type == "expiring") ≡ false
    → stands e (certificate_key m.id alert_type) ≡ true
    → stands (run evts e).0 (certificate_key m.id alert_type) ≡ true
run_checks-stands c report checks m evts e t h q n s =
    let k = certificate_key m.id t in
    run-stands evts e k h
      (all-select (is_of m.id) (λ evt. not (recovers k evt)) (events_of evts)
        (key-recovers m.id t (events_of evts))
        (subst (λ l. all (λ evt. not (recovers k evt)) l ≡ true) (sym q)
          (on_certificate_events-recovers report m t (run_checks c checks m).1 n)))
      s

-- The expiry alert under its key, as the checks tell it.
opened-on_certificate_events :
    (report : Report) (m : CertMonitor) (o : Option ℤ) (es : List CertEvent)
    → in_order o es ≡ true
    → opened (certificate_key m.id "expiring") (is_set o) (on_certificate_events report m es)
      ≡ is_set (after_events o es)
unfolding on_certificate_events
opened-on_certificate_events report m o [] h = refl
opened-on_certificate_events report m o (cert_alert cert_expiring s none ∷ es) h = ground (arith, h)
opened-on_certificate_events report m o (cert_alert cert_expiring s (some t) ∷ es) h =
    ground
      (arith, ==_refl m.id, opened-on_certificate_events report m (some t) es (ground (arith, h)))
opened-on_certificate_events report m o (cert_alert chain_invalid s t ∷ es) h =
    opened-on_certificate_events report m o es h
opened-on_certificate_events report m o (cert_alert hostname_mismatch s t ∷ es) h =
    opened-on_certificate_events report m o es h
opened-on_certificate_events report m o (cert_alert ocsp_revoked s t ∷ es) h =
    opened-on_certificate_events report m o es h
opened-on_certificate_events report m o (cert_alert cert_expired s t ∷ es) h =
    opened-on_certificate_events report m o es h
opened-on_certificate_events report m o (cert_recovery ∷ es) h =
    ground (arith, ==_refl m.id, opened-on_certificate_events report m none es (ground (arith, h)))
opened-on_certificate_events report m o (check_completed s ∷ es) h =
    opened-on_certificate_events report m o es h
opened-on_certificate_events report m o (status_changed s t ∷ es) h =
    opened-on_certificate_events report m o es h

-- An active expiry alert has a monitor that will recover it: if the store keeps the monitor after
-- every check, and the engine receives, of this monitor, exactly the events that the checks make,
-- among any others, then wherever an active expiry alert of the monitor goes with a last alerted
-- threshold before the checks, it does so after them.
pub run_checks-linked :
    (c : Calls) (report : Report) (checks : List Check) (m : CertMonitor)
    (evts : List (Deps × Event)) (e : Engine)
    → IsKeyed e
    → all (λ check. not check.update_fails) checks ≡ true
    → select (is_of m.id) (events_of evts)
      ≡ on_certificate_events report m (run_checks c checks m).1
    → (not (stands e (certificate_key m.id "expiring")) || is_set m.last_alerted_threshold) ≡ true
    → (not (stands (run evts e).0 (certificate_key m.id "expiring"))
        || is_set (run_checks c checks m).0.last_alerted_threshold)
      ≡ true
run_checks-linked c report checks m evts e h u q l =
    let k = certificate_key m.id "expiring" in
    let o = m.last_alerted_threshold in
    let es = (run_checks c checks m).1 in
    let (ordered, last) = run_checks-Follows c checks m u in
    subst (λ b. (not (stands (run evts e).0 k) || b) ≡ true)
      (sym (
          opened-select (is_of m.id) k (is_set o) (events_of evts)
            (key-is_of m.id "expiring" (events_of evts)))
        ∙ ap (opened k (is_set o)) q
        ∙ opened-on_certificate_events report m o es ordered
        ∙ ap is_set last)
      (run-opened evts e k (is_set o) h l)
