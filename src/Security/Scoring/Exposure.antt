-- ===== src/Security/Scoring/Exposure.antt =====
-- scoreNetworkExposure, scoreImageAge and the filters of acknowledged findings, of
-- internal/security/scorer.go. NewScorer refuses to start without an acknowledgment store, so that the
-- filters always have one.
use Prim.Native.String.{◌++◌ as append_text}
use pulseboard.Common.{
  ℕ, zero, suc, ◌+◌, ◌-◌, ◌*◌, ◌/◌, String, string_eq, Bool, true, not, Option, none, some, List,
  [], ◌∷◌, ◌==◌, ltb, length, if◌then◌else◌,
}
use pulseboard.Common.Assoc.{lookup}
use pulseboard.Security.Insights as Insights
use pulseboard.Security.Insights.{Insight, Detail, number, text, is_empty}
use pulseboard.Security.Scoring.{CveInfo, UpdateInfo, SubScore, concat, acknowledged_suffix}

abbrev pub exposure_penalty : Insight → ℕ
exposure_penalty i =
    if i.severity == Insights.severity_critical
    then 35
    else (if i.severity == Insights.severity_high
        then 20
        else (if i.severity == Insights.severity_medium then 10 else 0))

unfoldable pub exposure_penalties : List Insight → ℕ → ℕ
exposure_penalties [] penalty = penalty
exposure_penalties (i ∷ insights) penalty =
    exposure_penalties insights (penalty + exposure_penalty i)

abbrev pub exposure_summary : (ℕ → String) → ℕ → ℕ → String
exposure_summary dec zero acknowledged =
    if ltb 0 acknowledged
    then concat ("no active issues (" ∷ dec acknowledged ∷ " acknowledged)" ∷ [])
    else "no exposure issues"
exposure_summary dec (suc n) acknowledged =
    append_text (concat (dec (suc n) ∷ " exposure issue(s)" ∷ []))
      (acknowledged_suffix dec acknowledged)

unfoldable pub score_network_exposure : (ℕ → String) → List Insight → ℕ → SubScore
score_network_exposure dec insights acknowledged = record {
  sub_score = 100 - exposure_penalties insights 0;
  issue_count = length insights;
  summary = exposure_summary dec (length insights) acknowledged;
}

abbrev pub earlier : Option ℕ → Option ℕ → Option ℕ
earlier oldest none = oldest
earlier none (some t) = some t
earlier (some o) (some t) = if ltb t o then some t else some o

-- The loop over `PublishedAt`.
unfoldable pub oldest_from : Option ℕ → List UpdateInfo → Option ℕ
oldest_from oldest [] = oldest
oldest_from oldest (u ∷ updates) = oldest_from (earlier oldest u.published_at) updates

abbrev pub day : ℕ
day = 86400

-- math.Round(float64(days-30) / 335.0 * 100)
abbrev pub decay : ℕ → ℕ
decay days = ((days - 30) * 200 + 335) / 670

-- A date in the future gives the same score as today; the code would print it as a negative age.
abbrev pub score_age : (ℕ → String) → ℕ → Option ℕ → SubScore
score_age dec now none = record { sub_score = 50; issue_count = 0; summary = "age unknown" }
score_age dec now (some oldest) =
    let days = (now - oldest) / day in
    record {
      sub_score = if ltb days 30 then 100 else 100 - decay days;
      issue_count = if ltb days 30 then 0 else (if ltb 90 days then 1 else 0);
      summary = concat (dec days ∷ " days old" ∷ []);
    }

unfoldable pub score_image_age : (ℕ → String) → ℕ → List UpdateInfo → SubScore
score_image_age dec now updates = score_age dec now (oldest_from none updates)

-- IsAcknowledged(container, type, key); `none` is an error.
abbrev pub Acks : Type 0
Acks = String → String → String → Option Bool

-- `err != nil || !acked`
abbrev pub is_kept : Option Bool → Bool
is_kept none = true
is_kept (some acked) = not acked

unfoldable pub filter_acknowledged_cves : Acks → String → List CveInfo → List CveInfo
filter_acknowledged_cves acks container [] = []
filter_acknowledged_cves acks container (c ∷ cves) =
    let rest = filter_acknowledged_cves acks container cves in
    if is_kept (acks container "cve" c.cve_id) then c ∷ rest else rest

-- `%v`
abbrev pub shown : (ℕ → String) → Detail → String
shown dec (number n) = dec n
shown dec (text s) = s

abbrev pub protocol_of : (ℕ → String) → Option Detail → String
protocol_of dec none = "tcp"
protocol_of dec (some p) = shown dec p

abbrev pub key_of : (ℕ → String) → Option Detail → Option Detail → String
key_of dec none protocol = ""
key_of dec (some port) protocol = concat (shown dec port ∷ "/" ∷ protocol_of dec protocol ∷ [])

unfoldable pub insight_finding_key : (ℕ → String) → Insight → String
insight_finding_key dec i = key_of dec (lookup "port" i.details) (lookup "protocol" i.details)

unfoldable pub filter_acknowledged_insights :
    (ℕ → String) → Acks → String → List Insight → List Insight
filter_acknowledged_insights dec acks container [] = []
filter_acknowledged_insights dec acks container (i ∷ insights) =
    let rest = filter_acknowledged_insights dec acks container insights in
    if is_kept (acks container i.insight_type (insight_finding_key dec i)) then i ∷ rest else rest
