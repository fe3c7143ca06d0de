-- ===== src/Security/Categories.antt =====
-- The five categories of computeContainerScore in internal/security/scorer.go.
-- The readers are interfaces: a field gives what a call answers, `none` is an error, and an absent
-- reader is `none` as well. The arithmetic on floats, int(math.Round(float64(subScore) *
-- (float64(weight) / float64(totalWeight) * 100) / 100)), is a parameter `share subScore weight
-- totalWeight`. ComputedAt is left out.
pub mod Range
use pulseboard.Common.{
  ℕ, suc, ◌+◌, ◌-◌, String, string_eq, Bool, true, false, not, ◌&&◌, Option, none, some, List, [],
  ◌∷◌, ◌==◌, ltb, leb, length, min, if◌then◌else◌,
}
use pulseboard.Common.Assoc.{lookup, insert, delete}
use pulseboard.Security.Insights.{Insight, Service, get_container_insights, is_empty}
use pulseboard.Security.Scoring.{
  CertificateInfo, CveInfo, UpdateInfo, SubScore, score_tls, score_cves, score_updates,
}
use pulseboard.Security.Scoring.Exposure.{
  score_network_exposure, score_image_age, Acks, filter_acknowledged_cves,
  filter_acknowledged_insights,
}

-- Readers of one container, and the rest that a computation reads.
pub record World : Type 0 where
  pub dec : ℕ → String
  pub share : ℕ → ℕ → ℕ → ℕ
  pub certs : Option (String → Option (List CertificateInfo))
  pub cves : Option (String → Option (List CveInfo))
  pub cve_eval : Option (String → Option (Option String))
  pub updates : Option (String → Option (List UpdateInfo))
  pub sec : Option Service
  pub acks : Acks

-- The Go errors, by what was read.
pub data Failure : Type 0 where
  scoring_tls reading_cve_evaluation scoring_cves scoring_updates : Failure

pub data Result {ℓ} (A : Type ℓ) : Type ℓ where
  err : Failure → Result A
  ok : A → Result A

abbrev pub and_then {ℓ κ} : {A : Type ℓ} {B : Type κ} → Result A → (A → Result B) → Result B
and_then (err e) f = err e
and_then (ok a) f = f a

pub record CategoryScore : Type 0 where
  pub name : String
  pub weight : ℕ
  pub sub_score : ℕ
  pub applicable : Bool
  pub issue_count : ℕ
  pub summary : String
  pub evaluation : String

pub record SecurityScore : Type 0 where
  pub container_id : String
  pub container_name : String
  pub total_score : ℕ
  pub color_level : String
  pub categories : List CategoryScore
  pub applicable_count : ℕ
  pub is_partial : Bool

abbrev pub color_level_of : ℕ → String
color_level_of score =
    if leb 80 score
    then "green"
    else (if leb 60 score then "yellow" else (if leb 40 score then "orange" else "red"))

abbrev pub weight_tls : ℕ
weight_tls = 20

abbrev pub weight_cves : ℕ
weight_cves = 30

abbrev pub weight_updates : ℕ
weight_updates = 15

abbrev pub weight_network_exposure : ℕ
weight_network_exposure = 25

abbrev pub weight_image_age : ℕ
weight_image_age = 10

-- categoryResult{name: ..., weight: ...}
abbrev pub blank : String → ℕ → CategoryScore
blank name weight = record {
  name = name;
  weight = weight;
  sub_score = 0;
  applicable = false;
  issue_count = 0;
  summary = "";
  evaluation = "";
}

abbrev pub scored : CategoryScore → SubScore → CategoryScore
scored c r = record c {
  sub_score = r.sub_score;
  applicable = true;
  issue_count = r.issue_count;
  summary = r.summary;
}

-- A category without issues.
abbrev pub perfect : CategoryScore → String → CategoryScore
perfect c text = record c { sub_score = 100; applicable = true; summary = text }

abbrev pub tls_answer : World → Option (List CertificateInfo) → Result CategoryScore
tls_answer w none = err scoring_tls
tls_answer w (some []) = ok (blank "tls" weight_tls)
tls_answer w (some (c ∷ certs)) = ok (scored (blank "tls" weight_tls) (score_tls w.dec (c ∷ certs)))

abbrev pub tls_from :
    World → String → Option (String → Option (List CertificateInfo)) → Result CategoryScore
tls_from w ext none = ok (blank "tls" weight_tls)
tls_from w ext (some list) = tls_answer w (list ext)

abbrev pub tls_category : World → String → Result CategoryScore
tls_category w ext = tls_from w ext w.certs

abbrev pub evaluation_answer : Option (Option String) → Result String
evaluation_answer none = err reading_cve_evaluation
evaluation_answer (some none) = ok "not_evaluated"
evaluation_answer (some (some status)) = ok (
    if status == "evaluated"
    then status
    else (if status == "unsupported"
        then status
        else (if status == "error" then status else "not_evaluated")))

abbrev pub evaluation_from : String → Option (String → Option (Option String)) → Result String
evaluation_from ext none = ok "not_evaluated"
evaluation_from ext (some read) = evaluation_answer (read ext)

abbrev pub cve_evaluation_state : World → String → Result String
cve_evaluation_state w ext = evaluation_from ext w.cve_eval

abbrev pub cve_blank : String → CategoryScore
cve_blank state = record (blank "cves" weight_cves) { evaluation = state }

abbrev pub cve_answer : World → String → String → Option (List CveInfo) → Result CategoryScore
cve_answer w ext state none = err scoring_cves
cve_answer w ext state (some []) = ok (perfect (cve_blank state) "no known CVEs")
cve_answer w ext state (some (c ∷ cves)) =
    let filtered = filter_acknowledged_cves w.acks ext (c ∷ cves) in
    ok (scored (cve_blank state) (score_cves w.dec filtered (length (c ∷ cves) - length filtered)))

-- The switch on the state; the Boolean is `isPartial`.
abbrev pub cve_in_state :
    World → String → (String → Option (List CveInfo)) → String → Result (CategoryScore × Bool)
cve_in_state w ext list state =
    if state == "evaluated"
    then and_then (cve_answer w ext state (list ext)) (λ c. ok (c, false))
    else (if state == "unsupported"
        then ok (
          record (cve_blank state) {
            summary = "image not covered by the vulnerability data source";
          },
          false,
        )
        else ok (record (cve_blank state) { summary = "not evaluated" }, true))

abbrev pub cve_from :
    World → String → Option (String → Option (List CveInfo)) → Result (CategoryScore × Bool)
cve_from w ext none = ok (blank "cves" weight_cves, false)
cve_from w ext (some list) = and_then (cve_evaluation_state w ext) (cve_in_state w ext list)

abbrev pub cve_category : World → String → Result (CategoryScore × Bool)
cve_category w ext = cve_from w ext w.cves

-- The update category and the image age.
abbrev pub update_answer :
    World → ℕ → Option (List UpdateInfo) → Result (CategoryScore × CategoryScore)
update_answer w now none = err scoring_updates
update_answer w now (some []) = ok (
  perfect (blank "updates" weight_updates) "all images up to date",
  perfect (blank "image_age" weight_image_age) "current image",
)
update_answer w now (some (u ∷ updates)) = ok (
  scored (blank "updates" weight_updates) (score_updates w.dec (u ∷ updates)),
  scored (blank "image_age" weight_image_age) (score_image_age w.dec now (u ∷ updates)),
)

abbrev pub update_from :
    World
    → ℕ
    → String
    → Option (String → Option (List UpdateInfo))
    → Result (CategoryScore × CategoryScore)
update_from w now ext none = ok (blank "updates" weight_updates, blank "image_age" weight_image_age)
update_from w now ext (some list) = update_answer w now (list ext)

abbrev pub update_categories : World → ℕ → String → Result (CategoryScore × CategoryScore)
update_categories w now ext = update_from w now ext w.updates

abbrev pub network_of : World → String → List Insight → CategoryScore
network_of w ext [] =
    perfect (blank "network_exposure" weight_network_exposure) "no exposure issues"
network_of w ext (i ∷ insights) =
    let filtered = filter_acknowledged_insights w.dec w.acks ext (i ∷ insights) in
    scored (blank "network_exposure" weight_network_exposure)
      (score_network_exposure w.dec filtered (length (i ∷ insights) - length filtered))

abbrev pub network_in : World → String → String → Service → CategoryScore
network_in w id ext s = network_of w ext (get_container_insights s id).insights

abbrev pub network_from : World → String → String → Option Service → CategoryScore
network_from w id ext none = blank "network_exposure" weight_network_exposure
network_from w id ext (some s) = network_in w id ext s

abbrev pub network_category : World → String → String → CategoryScore
network_category w id ext = network_from w id ext w.sec
