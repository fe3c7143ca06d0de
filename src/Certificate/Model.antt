-- ===== src/Certificate/Model.antt =====
-- internal/certificate/model.go, and what a check of a certificate returns. Times are nanoseconds.
use pulseboard.Common.{
  ℕ, String, string_eq, Bool, true, false, Option, List, [], ◌∷◌, any, if◌then◌else◌,
}
use pulseboard.Common.Int.{ℤ, pos, leb_ℤ}

pub data CertStatus : Type 0 where
  valid expiring expired error unknown : CertStatus

pub data CertSource : Type 0 where
  auto standalone label : CertSource

abbrev pub is_scheduled : CertSource → Bool
is_scheduled standalone = true
is_scheduled label = true
is_scheduled auto = false

abbrev pub same_status : CertStatus → CertStatus → Bool
same_status valid valid = true
same_status expiring expiring = true
same_status expired expired = true
same_status error error = true
same_status unknown unknown = true
same_status _ _ = false

pub record CertMonitor : Type 0 where
  pub id : String
  pub hostname : String
  pub source : CertSource
  pub status : CertStatus
  pub check_interval_seconds : ℕ
  pub warning_thresholds : List ℤ
  pub last_alerted_threshold : Option ℤ
  pub last_check_at : Option ℕ
  pub next_check_at : Option ℕ
  pub last_error : String

-- What the TLS client found; an empty `error_text` is a connection that worked.
pub record CheckCertificateResult : Type 0 where
  pub error_text : String
  pub issuer_org : String
  pub not_after : ℕ
  pub chain_valid : Bool
  pub hostname_match : Bool
  pub ocsp_status : String

pub record CertCheckResult : Type 0 where
  pub error_message : String
  pub issuer_org : String
  pub not_after : Option ℕ
  pub chain_valid : Option Bool
  pub hostname_match : Option Bool
  pub ocsp_status : String

pub data AlertKind : Type 0 where
  chain_invalid hostname_mismatch ocsp_revoked cert_expired cert_expiring : AlertKind

-- What the service emits, with the payload that somebody reads.
pub data CertEvent : Type 0 where
  cert_alert : AlertKind → String → Option ℤ → CertEvent
  cert_recovery : CertEvent
  check_completed : CertStatus → CertEvent
  status_changed : CertStatus → CertStatus → CertEvent

abbrev pub auto_renewable_issuers : List String
auto_renewable_issuers = "let's encrypt" ∷ "zerossl" ∷ "buypass" ∷ "google trust services" ∷ []

-- `lower_contains s t` is strings.Contains(strings.ToLower(s), t).
unfoldable pub is_auto_renewable : (String → String → Bool) → String → Bool
is_auto_renewable lower_contains issuer_org =
    any (λ issuer. lower_contains issuer_org issuer) auto_renewable_issuers

unfoldable pub expiring_severity : (String → String → Bool) → ℤ → String → String
unfolding is_auto_renewable
expiring_severity lower_contains days issuer_org =
    if is_auto_renewable lower_contains issuer_org
    then if leb_ℤ days (pos 3) then "critical" else if leb_ℤ days (pos 7) then "warning" else "info"
    else if leb_ℤ days (pos 7)
    then "critical"
    else if leb_ℤ days (pos 14)
    then "warning"
    else "info"
