-- ===== src/Security/Scoring.antt =====
-- The category scores of internal/security/scorer.go. A time is a number of seconds. `dec` prints a
-- number in a Sprintf. The code counts a score down from 100 and makes it 0 if it is negative: here
-- the penalties are added up, and 100 less their sum stops at 0.
pub mod Exposure
pub mod Laws
use Prim.Native.String.{◌++◌ as append_text}
use pulseboard.Common.{
  ℕ, suc, ◌+◌, ◌-◌, ◌*◌, ◌/◌, String, string_eq, Bool, true, false, not, ◌||◌, ◌&&◌, Option, none,
  some, List, [], ◌∷◌, ◌++◌, ◌==◌, ltb, leb, length, if◌then◌else◌,
}
use pulseboard.Common.Int.{ℤ, pos, leb_ℤ}
use pulseboard.Common.Assoc.{lookup}
use pulseboard.Security.Insights as Insights
use pulseboard.Security.Insights.{Insight, Detail, number, text, is_empty}

pub record CertificateInfo : Type 0 where
  pub status : String
  pub days_remaining : ℤ

pub record CveInfo : Type 0 where
  pub cve_id : String
  pub severity : String

pub record UpdateInfo : Type 0 where
  pub update_type : String
  pub published_at : Option ℕ

-- What a scoring function returns.
pub record SubScore : Type 0 where
  pub sub_score : ℕ
  pub issue_count : ℕ
  pub summary : String

abbrev pub concat : List String → String
concat [] = ""
concat (s ∷ rest) = append_text s (concat rest)

abbrev pub join_rest : List String → String
join_rest [] = ""
join_rest (s ∷ rest) = append_text ", " (append_text s (join_rest rest))

abbrev pub join_parts : List String → String
join_parts [] = ""
join_parts (s ∷ rest) = append_text s (join_rest rest)

-- `if n > 0 { parts = append(parts, fmt.Sprintf("%d ...", n)) }`
abbrev pub part : (ℕ → String) → ℕ → String → List String
part dec n name = if ltb 0 n then concat (dec n ∷ name ∷ []) ∷ [] else []

pub record TlsTally : Type 0 where
  pub penalty : ℕ
  pub expiring : ℕ
  pub expired : ℕ
  pub errors : ℕ

abbrev pub tally_certificate : CertificateInfo → TlsTally → TlsTally
tally_certificate c t =
    if c.status == "expired"
    then record t { penalty = t.penalty + 50; expired = suc t.expired }
    else (if c.status == "expiring"
        then record t {
          penalty =
              t.penalty
              + (if leb_ℤ c.days_remaining (pos 7)
                  then 30
                  else (if leb_ℤ c.days_remaining (pos 14) then 20 else 10));
          expiring = suc t.expiring;
        }
        else (if c.status == "error"
            then record t { penalty = t.penalty + 25; errors = suc t.errors }
            else t))

unfoldable pub tally_tls : List CertificateInfo → TlsTally → TlsTally
tally_tls [] t = t
tally_tls (c ∷ certs) t = tally_tls certs (tally_certificate c t)

abbrev pub tls_summary : (ℕ → String) → TlsTally → String
tls_summary dec t =
    if ltb 0 t.expired && ltb 0 t.expiring
    then concat (dec t.expired ∷ " expired, " ∷ dec t.expiring ∷ " expiring" ∷ [])
    else (if ltb 0 t.expired
        then concat (dec t.expired ∷ " expired" ∷ [])
        else (if ltb 0 t.expiring
            then concat (dec t.expiring ∷ " expiring within 30 days" ∷ [])
            else (if ltb 0 t.errors
                then concat (dec t.errors ∷ " check errors" ∷ [])
                else "all certificates valid")))

unfoldable pub score_tls : (ℕ → String) → List CertificateInfo → SubScore
score_tls dec certs =
    let t = tally_tls certs (record { penalty = 0; expiring = 0; expired = 0; errors = 0 }) in
    record {
      sub_score = 100 - t.penalty;
      issue_count = t.expired + t.expiring + t.errors;
      summary = tls_summary dec t;
    }

pub record CveTally : Type 0 where
  pub penalty : ℕ
  pub critical : ℕ
  pub high : ℕ
  pub medium : ℕ
  pub low : ℕ

abbrev pub tally_cve : CveInfo → CveTally → CveTally
tally_cve c t =
    if c.severity == "critical"
    then record t { penalty = t.penalty + 30; critical = suc t.critical }
    else (if c.severity == "high"
        then record t { penalty = t.penalty + 15; high = suc t.high }
        else (if c.severity == "medium"
            then record t { penalty = t.penalty + 5; medium = suc t.medium }
            else (if c.severity == "low"
                then record t { penalty = t.penalty + 2; low = suc t.low }
                else t)))

unfoldable pub tally_cves : List CveInfo → CveTally → CveTally
tally_cves [] t = t
tally_cves (c ∷ cves) t = tally_cves cves (tally_cve c t)

abbrev pub acknowledged_suffix : (ℕ → String) → ℕ → String
acknowledged_suffix dec n = if ltb 0 n then concat (" (" ∷ dec n ∷ " acknowledged)" ∷ []) else ""

abbrev pub cve_summary : (ℕ → String) → CveTally → ℕ → String
cve_summary dec t acknowledged =
    let parts =
      part dec t.critical " critical"
      ++ (part dec t.high " high" ++ (part dec t.medium " medium" ++ part dec t.low " low")) in
    append_text (if is_empty parts then "no active CVEs" else join_parts parts)
      (acknowledged_suffix dec acknowledged)

unfoldable pub score_cves : (ℕ → String) → List CveInfo → ℕ → SubScore
score_cves dec cves acknowledged =
    let t = tally_cves cves (record { penalty = 0; critical = 0; high = 0; medium = 0; low = 0 }) in
    record {
      sub_score = 100 - t.penalty;
      issue_count = length cves;
      summary = cve_summary dec t acknowledged;
    }

pub record UpdateTally : Type 0 where
  pub penalty : ℕ
  pub major : ℕ
  pub minor : ℕ
  pub patch : ℕ

abbrev pub tally_update : UpdateInfo → UpdateTally → UpdateTally
tally_update u t =
    if u.update_type == "major"
    then record t { penalty = t.penalty + 25; major = suc t.major }
    else (if u.update_type == "minor"
        then record t { penalty = t.penalty + 10; minor = suc t.minor }
        else (if u.update_type == "patch"
            then record t { penalty = t.penalty + 5; patch = suc t.patch }
            else t))

unfoldable pub tally_updates : List UpdateInfo → UpdateTally → UpdateTally
tally_updates [] t = t
tally_updates (u ∷ updates) t = tally_updates updates (tally_update u t)

abbrev pub update_summary : (ℕ → String) → UpdateTally → String
update_summary dec t =
    let parts =
      part dec t.major " major" ++ (part dec t.minor " minor" ++ part dec t.patch " patch") in
    if is_empty parts then "all images up to date" else append_text (join_parts parts) " available"

unfoldable pub score_updates : (ℕ → String) → List UpdateInfo → SubScore
score_updates dec updates =
    let t = tally_updates updates (record { penalty = 0; major = 0; minor = 0; patch = 0 }) in
    record {
      sub_score = 100 - t.penalty;
      issue_count = length updates;
      summary = update_summary dec t;
    }
