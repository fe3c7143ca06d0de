-- ===== src/Certificate/Service.antt =====
-- The service of internal/certificate/service.go: what a finished check of a certificate does to
-- its monitor, and what it emits. `int(d.Hours() / 24)` is taken as computed without rounding.
pub mod Status
pub mod Escalation
use pulseboard.Common.{
  ℕ, zero, suc, ◌+◌, ◌-◌, ◌*◌, ◌/◌, min, String, string_eq, Bool, true, false, not, Option, none,
  some, List, [], ◌∷◌, ◌++◌, ◌==◌, any, ltb, leb, if◌then◌else◌,
}
use pulseboard.Common.Int.{ℤ, pos, negsuc, leb_ℤ, ltb_ℤ}
use pulseboard.Certificate.Model.{
  CertStatus, valid, expiring, expired, error, CertMonitor, CheckCertificateResult, CertCheckResult,
  AlertKind, chain_invalid, hostname_mismatch, ocsp_revoked, cert_expired, cert_expiring, CertEvent,
  cert_alert, cert_recovery, check_completed, status_changed, is_scheduled, same_status,
  expiring_severity,
}
use pulseboard.Certificate.Thresholds.{sort_descending, crossed_threshold}

-- Each call of time.Now() of one check.
pub record Clock : Type 0 where
  pub checked_at : ℕ
  pub status_expiry_at : ℕ
  pub status_days_at : ℕ
  pub alert_days_at : ℕ
  pub alert_expiry_at : ℕ

-- What the service asks of others: strings.Contains(strings.ToLower(s), t), and the edition.
pub record Calls : Type 0 where
  pub lower_contains : String → String → Bool
  pub allows_ocsp : Bool

abbrev pub second : ℕ
second = 1000000000

abbrev pub day : ℕ
day = 86400000000000

abbrev pub max_duration : ℕ
max_duration = 9223372036854775807

abbrev negated : ℕ → ℤ
negated zero = pos 0
negated (suc n) = negsuc n

-- int(time.Until(t).Hours() / 24): time.Until stops at the bounds of an int64.
unfoldable pub days_remaining : ℕ → ℕ → ℤ
days_remaining not_after now =
    if leb now not_after
    then pos (min (not_after - now) max_duration / day)
    else negated (min (now - not_after) (max_duration + 1) / day)

unfoldable pub compute_status : Clock → ℕ → List ℤ → CertStatus
unfolding days_remaining sort_descending
compute_status clk not_after thresholds =
    if ltb not_after clk.status_expiry_at
    then expired
    else if any (λ threshold. leb_ℤ (days_remaining not_after clk.status_days_at) threshold)
        (sort_descending thresholds)
    then expiring
    else valid

-- The alerts on the chain, the name and the stapled answer.
abbrev pub on_false : AlertKind → Option Bool → List CertEvent
on_false kind (some false) = cert_alert kind "critical" none ∷ []
on_false kind _ = []

unfoldable pub trust_alerts : CertCheckResult → List CertEvent
trust_alerts r =
    on_false chain_invalid r.chain_valid
    ++ (on_false hostname_mismatch r.hostname_match
        ++ (if r.ocsp_status == "revoked"
            then cert_alert ocsp_revoked "critical" none ∷ []
            else []))

abbrev pub Outcome : Type 0
Outcome = CertMonitor × List CertEvent

-- No threshold is crossed: a recovery, if there was an alert.
abbrev pub on_renewed : Option ℤ → CertMonitor → Outcome
on_renewed none m = (m, [])
on_renewed (some last) m = (record m { last_alerted_threshold = none }, cert_recovery ∷ [])

abbrev pub is_lower : ℤ → Option ℤ → Bool
is_lower crossed none = true
is_lower crossed (some last) = ltb_ℤ crossed last

unfoldable pub on_crossed : Calls → ℤ → String → Option ℤ → CertMonitor → Outcome
unfolding expiring_severity
on_crossed c days issuer_org none m = on_renewed m.last_alerted_threshold m
on_crossed c days issuer_org (some crossed) m =
    if is_lower crossed m.last_alerted_threshold
    then (
      record m { last_alerted_threshold = some crossed },
      cert_alert cert_expiring (expiring_severity c.lower_contains days issuer_org) (some crossed)
          ∷ [],
    )
    else (m, [])

unfoldable pub on_expiry : Calls → Clock → String → Option ℕ → CertMonitor → Outcome
unfolding on_crossed crossed_threshold days_remaining
on_expiry c clk issuer_org none m = (m, [])
on_expiry c clk issuer_org (some not_after) m =
    let days = days_remaining not_after clk.alert_days_at in
    if ltb not_after clk.alert_expiry_at
    then (m, cert_alert cert_expired "critical" none ∷ [])
    else on_crossed c days issuer_org (crossed_threshold days m.warning_thresholds) m

unfoldable pub evaluate_alerts : Calls → Clock → CertCheckResult → CertMonitor → Outcome
unfolding on_expiry trust_alerts
evaluate_alerts c clk r m =
    let (m', calls) = on_expiry c clk r.issuer_org r.not_after m in
    if not (r.error_message == "") then (m, []) else (m', trust_alerts r ++ calls)

-- The result that the check stores.
unfoldable pub result_of : Calls → CheckCertificateResult → CertCheckResult
result_of c raw =
    if not (raw.error_text == "")
    then record {
      error_message = raw.error_text;
      issuer_org = "";
      not_after = none;
      chain_valid = none;
      hostname_match = none;
      ocsp_status = "";
    }
    else record {
      error_message = "";
      issuer_org = raw.issuer_org;
      not_after = some raw.not_after;
      chain_valid = some raw.chain_valid;
      hostname_match = some raw.hostname_match;
      ocsp_status = if c.allows_ocsp then raw.ocsp_status else "";
    }

-- The monitor before its alerts are evaluated.
unfoldable pub checked_monitor : Clock → CheckCertificateResult → CertMonitor → CertMonitor
unfolding compute_status
checked_monitor clk raw m = record m {
  status =
      if not (raw.error_text == "")
      then error
      else compute_status clk raw.not_after m.warning_thresholds;
  last_error = raw.error_text;
  last_check_at = some clk.checked_at;
  next_check_at =
      if is_scheduled m.source
      then some (clk.checked_at + m.check_interval_seconds * second)
      else m.next_check_at;
}

unfoldable pub process_check_result : Calls → Clock → CheckCertificateResult → CertMonitor → Outcome
unfolding result_of checked_monitor evaluate_alerts
process_check_result c clk raw m =
    let (m', calls) = evaluate_alerts c clk (result_of c raw) (checked_monitor clk raw m) in
    (
      m',
      calls
          ++ check_completed m'.status
            ∷ (if same_status m.status m'.status
                then []
                else status_changed m.status m'.status ∷ []),
    )

-- One check of a monitor: the readings, what the client found, and whether UpdateMonitor fails.
pub record Check : Type 0 where
  pub clock : Clock
  pub raw : CheckCertificateResult
  pub update_fails : Bool

-- A check works on the monitor as the store holds it, which keeps the old one if the update fails.
unfoldable pub run_checks : Calls → List Check → CertMonitor → Outcome
unfolding process_check_result
run_checks c [] m = (m, [])
run_checks c (check ∷ rest) m =
    let (m', calls) = process_check_result c check.clock check.raw m in
    let (m'', more) = run_checks c rest (if check.update_fails then m else m') in
    (m'', calls ++ more)
