-- ===== src/Security/Scoring/Laws.antt =====
-- The range of the category scores, and what an acknowledgment does to them.
use pulseboard.Common.{
  ℕ, ◌+◌, ◌≤◌, String, string_eq, Option, none, some, List, [], ◌∷◌, arith, Bool-cases, inl, inr,
}
use pulseboard.Security.Insights.{Insight}
use pulseboard.Security.Scoring.{
  CertificateInfo, CveInfo, UpdateInfo, CveTally, tally_cve, tally_cves, score_tls, score_cves,
  score_updates,
}
use pulseboard.Security.Scoring.Exposure.{
  exposure_penalty, exposure_penalties, score_network_exposure, score_age, score_image_age,
  oldest_from, Acks, is_kept, filter_acknowledged_cves, insight_finding_key,
  filter_acknowledged_insights,
}

score_age-le : (dec : ℕ → String) (now : ℕ) (t : Option ℕ) → (score_age dec now t).sub_score ≤ 100
score_age-le dec now none = omega arith
score_age-le dec now (some t) = ground arith

-- Every category score is at most 100.
pub score_image_age-le :
    (dec : ℕ → String) (now : ℕ) (updates : List UpdateInfo)
    → (score_image_age dec now updates).sub_score ≤ 100
unfolding score_image_age
score_image_age-le dec now updates = score_age-le dec now (oldest_from none updates)

pub score_tls-le :
    (dec : ℕ → String) (certs : List CertificateInfo) → (score_tls dec certs).sub_score ≤ 100
unfolding score_tls
score_tls-le dec certs = omega arith

pub score_cves-le :
    (dec : ℕ → String) (cves : List CveInfo) (n : ℕ) → (score_cves dec cves n).sub_score ≤ 100
unfolding score_cves
score_cves-le dec cves n = omega arith

pub score_updates-le :
    (dec : ℕ → String) (updates : List UpdateInfo) → (score_updates dec updates).sub_score ≤ 100
unfolding score_updates
score_updates-le dec updates = omega arith

pub score_network_exposure-le :
    (dec : ℕ → String) (insights : List Insight) (n : ℕ)
    → (score_network_exposure dec insights n).sub_score ≤ 100
unfolding score_network_exposure
score_network_exposure-le dec insights n = omega arith

-- A lower tally stays lower, and what is filtered out only lowers it.
tally_cves-le :
    (acks : Acks) (ext : String) (cves : List CveInfo) (t u : CveTally)
    → t.penalty ≤ u.penalty
    → (tally_cves (filter_acknowledged_cves acks ext cves) t).penalty ≤ (tally_cves cves u).penalty
unfolding tally_cves filter_acknowledged_cves
tally_cves-le acks ext [] t u h = h
tally_cves-le acks ext (c ∷ cves) t u h = elim (Bool-cases (is_kept (acks ext "cve" c.cve_id))) [
  | inl k ↦ rw k (tally_cves-le acks ext cves (tally_cve c t) (tally_cve c u) (ground (arith, h)))
  | inr d ↦ rw d (tally_cves-le acks ext cves t (tally_cve c u) (ground (arith, h)))
]

exposure_penalties-le :
    (dec : ℕ → String) (acks : Acks) (ext : String) (insights : List Insight) (p q : ℕ)
    → p ≤ q
    → exposure_penalties (filter_acknowledged_insights dec acks ext insights) p
      ≤ exposure_penalties insights q
unfolding exposure_penalties filter_acknowledged_insights
exposure_penalties-le dec acks ext [] p q h = h
exposure_penalties-le dec acks ext (i ∷ insights) p q h =
    elim (Bool-cases (is_kept (acks ext i.insight_type (insight_finding_key dec i)))) [
      | inl k ↦ rw k (
          exposure_penalties-le dec acks ext insights (p + exposure_penalty i)
            (q + exposure_penalty i) (omega (arith, h)))
      | inr d ↦ rw d (
          exposure_penalties-le dec acks ext insights p (q + exposure_penalty i) (omega (arith, h)))
    ]

-- Acknowledging findings never lowers a score: the CVE score and the exposure score of what is left
-- after the filter are at least those of all findings, whatever the acknowledgment store answers.
pub filter_acknowledged-le :
    (dec : ℕ → String) (acks : Acks) (ext : String) (cves : List CveInfo) (insights : List Insight)
    (m n : ℕ)
    → ((score_cves dec cves 0).sub_score
        ≤ (score_cves dec (filter_acknowledged_cves acks ext cves) m).sub_score)
      × ((score_network_exposure dec insights 0).sub_score
          ≤ (score_network_exposure dec
              (filter_acknowledged_insights dec acks ext insights)
              n).sub_score)
unfolding score_cves score_network_exposure
filter_acknowledged-le dec acks ext cves insights m n =
    let none_yet : CveTally = record { penalty = 0; critical = 0; high = 0; medium = 0; low = 0 } in
    (
      omega (arith, tally_cves-le acks ext cves none_yet none_yet (omega arith)),
      omega (arith, exposure_penalties-le dec acks ext insights 0 0 (omega arith)),
    )
