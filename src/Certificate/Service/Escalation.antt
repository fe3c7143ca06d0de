-- ===== src/Certificate/Service/Escalation.antt =====
-- The alerts of a monitor over any run of checks.
use pulseboard.Common.{
  ℕ, String, string_eq, Bool, true, false, not, ◌&&◌, Option, none, some, List, [], ◌∷◌, ◌++◌, ◌==◌,
  ◌≡◌, refl, ◌∙◌, ap, arith, all, ltb, if◌then◌else◌, Bool-cases, inl, inr,
}
use pulseboard.Common.Int.{ℤ, ltb_ℤ}
use pulseboard.Certificate.Model.{
  CertStatus, CertMonitor, CheckCertificateResult, CertCheckResult, chain_invalid,
  hostname_mismatch, ocsp_revoked, cert_expiring, CertEvent, cert_alert, cert_recovery,
  check_completed, status_changed, same_status,
}
use pulseboard.Certificate.Thresholds.{crossed_threshold}
use pulseboard.Certificate.Service.{
  Calls, Clock, Check, days_remaining, on_false, trust_alerts, on_renewed, is_lower, on_crossed,
  on_expiry, evaluate_alerts, result_of, checked_monitor, process_check_result, run_checks,
}

-- The threshold last alerted, as the events alone tell it.
abbrev pub after_event : Option ℤ → CertEvent → Option ℤ
after_event last (cert_alert cert_expiring severity crossed) = crossed
after_event last cert_recovery = none
after_event last _ = last

abbrev pub is_set : Option ℤ → Bool
is_set none = false
is_set (some t) = true

abbrev below : Option ℤ → Option ℤ → Bool
below none last = false
below (some crossed) none = true
below (some crossed) (some last) = ltb_ℤ crossed last

-- Whether an event may follow: an expiry alert names a lower threshold than the one before, and a
-- recovery has an alert to recover from.
abbrev pub is_next : Option ℤ → CertEvent → Bool
is_next last (cert_alert cert_expiring severity crossed) = below crossed last
is_next last cert_recovery = is_set last
is_next last _ = true

abbrev pub in_order : Option ℤ → List CertEvent → Bool
in_order last [] = true
in_order last (e ∷ es) = is_next last e && in_order (after_event last e) es

abbrev pub after_events : Option ℤ → List CertEvent → Option ℤ
after_events last [] = last
after_events last (e ∷ es) = after_events (after_event last e) es

in_order-append :
    (last : Option ℤ) (es fs : List CertEvent)
    → in_order last (es ++ fs) ≡ (in_order last es && in_order (after_events last es) fs)
in_order-append last [] fs = refl
in_order-append last (e ∷ es) fs = ground (arith, in_order-append (after_event last e) es fs)

after_events-append :
    (last : Option ℤ) (es fs : List CertEvent)
    → after_events last (es ++ fs) ≡ after_events (after_events last es) fs
after_events-append last [] fs = refl
after_events-append last (e ∷ es) fs = after_events-append (after_event last e) es fs

-- The events of a step from one last threshold to another.
abbrev pub Follows : Option ℤ → List CertEvent → Option ℤ → Type 0
Follows last es next = (in_order last es ≡ true) × (after_events last es ≡ next)

Follows-append :
    (a b c : Option ℤ) (es fs : List CertEvent)
    → Follows a es b
    → Follows b fs c
    → Follows a (es ++ fs) c
Follows-append a b c es fs (p, q) (r, s) = (
  ground (arith, in_order-append a es fs, p, q, r),
  after_events-append a es fs ∙ ap (λ o. after_events o fs) q ∙ s,
)

on_renewed-Follows :
    (o : Option ℤ) (m : CertMonitor)
    → m.last_alerted_threshold ≡ o
    → Follows m.last_alerted_threshold (on_renewed o m).1 (on_renewed o m).0.last_alerted_threshold
on_renewed-Follows none m h = (refl, refl)
on_renewed-Follows (some t) m h = (ground (arith, h), refl)

on_crossed-Follows :
    (c : Calls) (days : ℤ) (org : String) (o : Option ℤ) (m : CertMonitor)
    → Follows m.last_alerted_threshold
        (on_crossed c days org o m).1
        (on_crossed c days org o m).0.last_alerted_threshold
unfolding on_crossed
on_crossed-Follows c days org none m = on_renewed-Follows m.last_alerted_threshold m refl
on_crossed-Follows c days org (some t) m = elim (Bool-cases (is_lower t m.last_alerted_threshold)) [
  | inl e ↦ simp e (ground (arith, e), refl)
  | inr f ↦ simp f (refl, refl)
]

on_expiry-Follows :
    (c : Calls) (clk : Clock) (org : String) (o : Option ℕ) (m : CertMonitor)
    → Follows m.last_alerted_threshold
        (on_expiry c clk org o m).1
        (on_expiry c clk org o m).0.last_alerted_threshold
unfolding on_expiry
on_expiry-Follows c clk org none m = (refl, refl)
on_expiry-Follows c clk org (some t) m = elim (Bool-cases (ltb t clk.alert_expiry_at)) [
  | inl e ↦ simp e (refl, refl)
  | inr f ↦ simp f (
      on_crossed-Follows c (days_remaining t clk.alert_days_at) org
        (crossed_threshold (days_remaining t clk.alert_days_at) m.warning_thresholds) m)
]

chain_invalid-Follows : (b : Option Bool) (o : Option ℤ) → Follows o (on_false chain_invalid b) o
chain_invalid-Follows none o = (refl, refl)
chain_invalid-Follows (some true) o = (refl, refl)
chain_invalid-Follows (some false) o = (refl, refl)

hostname_mismatch-Follows :
    (b : Option Bool) (o : Option ℤ) → Follows o (on_false hostname_mismatch b) o
hostname_mismatch-Follows none o = (refl, refl)
hostname_mismatch-Follows (some true) o = (refl, refl)
hostname_mismatch-Follows (some false) o = (refl, refl)

abbrev revoked_alerts : Bool → List CertEvent
revoked_alerts b = if b then cert_alert ocsp_revoked "critical" none ∷ [] else []

revoked_alerts-Follows : (b : Bool) (o : Option ℤ) → Follows o (revoked_alerts b) o
revoked_alerts-Follows true o = (refl, refl)
revoked_alerts-Follows false o = (refl, refl)

trust_alerts-Follows : (r : CertCheckResult) (o : Option ℤ) → Follows o (trust_alerts r) o
unfolding trust_alerts
trust_alerts-Follows r o =
    Follows-append o o o (on_false chain_invalid r.chain_valid) _
      (chain_invalid-Follows r.chain_valid o)
      (Follows-append o o o (on_false hostname_mismatch r.hostname_match) _
        (hostname_mismatch-Follows r.hostname_match o)
        (revoked_alerts-Follows (r.ocsp_status == "revoked") o))

evaluate_alerts-Follows :
    (c : Calls) (clk : Clock) (r : CertCheckResult) (m : CertMonitor)
    → Follows m.last_alerted_threshold
        (evaluate_alerts c clk r m).1
        (evaluate_alerts c clk r m).0.last_alerted_threshold
unfolding evaluate_alerts
evaluate_alerts-Follows c clk r m = elim (Bool-cases (r.error_message == "")) [
  | inl e ↦ simp e (
      Follows-append m.last_alerted_threshold m.last_alerted_threshold _ (trust_alerts r) _
        (trust_alerts-Follows r m.last_alerted_threshold)
        (on_expiry-Follows c clk r.issuer_org r.not_after m))
  | inr f ↦ simp f (refl, refl)
]

status_events-Follows :
    (before now : CertStatus) (b : Bool) (o : Option ℤ)
    → Follows o (check_completed now ∷ (if b then [] else status_changed before now ∷ [])) o
status_events-Follows before now true o = (refl, refl)
status_events-Follows before now false o = (refl, refl)

process_check_result-Follows :
    (c : Calls) (clk : Clock) (raw : CheckCertificateResult) (m : CertMonitor)
    → Follows m.last_alerted_threshold
        (process_check_result c clk raw m).1
        (process_check_result c clk raw m).0.last_alerted_threshold
unfolding process_check_result checked_monitor
process_check_result-Follows c clk raw m =
    let checked = checked_monitor clk raw m in
    let done = evaluate_alerts c clk (result_of c raw) checked in
    Follows-append m.last_alerted_threshold _ _ done.1 _
      (evaluate_alerts-Follows c clk (result_of c raw) checked)
      (status_events-Follows m.status done.0.status (same_status m.status done.0.status) _)

stored :
    (check : Check) (b : Bool) → (not check.update_fails && b) ≡ true → check.update_fails ≡ false
stored check b h = ground arith

pub run_checks-Follows :
    (c : Calls) (checks : List Check) (m : CertMonitor)
    → all (λ check. not check.update_fails) checks ≡ true
    → Follows m.last_alerted_threshold
        (run_checks c checks m).1
        (run_checks c checks m).0.last_alerted_threshold
unfolding run_checks
run_checks-Follows c [] m h = (refl, refl)
run_checks-Follows c (check ∷ checks) m h =
    let next = process_check_result c check.clock check.raw m in
    simp (stored check _ h) (
      Follows-append m.last_alerted_threshold _ _ next.1 _
        (process_check_result-Follows c check.clock check.raw m)
        (run_checks-Follows c checks next.0 (ground (arith, h))))

-- Whatever the checks of a monitor find, as long as the store keeps the monitor after each of them:
-- between two recoveries each expiry alert names a lower threshold than the one before it, and a
-- recovery is emitted only after an expiry alert, counting the alert that the monitor began with.
pub run_checks-in_order :
    (c : Calls) (checks : List Check) (m : CertMonitor)
    → all (λ check. not check.update_fails) checks ≡ true
    → in_order m.last_alerted_threshold (run_checks c checks m).1 ≡ true
run_checks-in_order c checks m h = (run_checks-Follows c checks m h).0
