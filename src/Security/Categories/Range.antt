-- ===== src/Security/Categories/Range.antt =====
-- Every category keeps its weight, and its score is at most 100.
use pulseboard.Common.{
  ℕ, ◌≤◌, String, string_eq, false, Option, none, some, List, [], ◌∷◌, ◌==◌, ◌≡◌, refl, arith,
  Bool-cases, inl, inr,
}
use pulseboard.Security.Insights.{Insight, Service, get_container_insights}
use pulseboard.Security.Scoring.{CertificateInfo, CveInfo, UpdateInfo}
use pulseboard.Security.Scoring.Laws.{
  score_tls-le, score_cves-le, score_updates-le, score_network_exposure-le, score_image_age-le,
}
use pulseboard.Security.Categories.{
  World, Result, err, ok, and_then, CategoryScore, tls_answer, tls_from, cve_answer, cve_in_state,
  cve_from, cve_evaluation_state, update_answer, update_from, network_of, network_from, weight_tls,
  weight_cves, weight_updates, weight_network_exposure, weight_image_age,
}

abbrev pub IsInRange : CategoryScore → Type 0
IsInRange c = c.sub_score ≤ 100

-- A predicate of what is returned without an error.
abbrev pub Holds : {A : Type 0} → (A → Type 0) → Result A → Type 0
Holds P (err e) = Unit
Holds P (ok a) = P a

pub and_then-Holds :
    {A B : Type 0} (P : A → Type 0) (Q : B → Type 0) (r : Result A) (f : A → Result B)
    → Holds P r
    → ((a : A) → P a → Holds Q (f a))
    → Holds Q (and_then r f)
and_then-Holds P Q (err e) f h k = tt
and_then-Holds P Q (ok a) f h k = k a h

abbrev pub IsWeighed : ℕ → CategoryScore → Type 0
IsWeighed weight c = (c.weight ≡ weight) × IsInRange c

pub tls_category-IsWeighed :
    (w : World) (ext : String) (certs : Option (String → Option (List CertificateInfo)))
    → Holds (IsWeighed weight_tls) (tls_from w ext certs)
tls_category-IsWeighed w ext none = (refl, omega arith)
tls_category-IsWeighed w ext (some list) = go (list ext)
  where
    go :
        (answer : Option (List CertificateInfo))
        → Holds (IsWeighed weight_tls) (tls_answer w answer)
    go none = tt
    go (some []) = (refl, omega arith)
    go (some (c ∷ certs)) = (refl, score_tls-le w.dec (c ∷ certs))

cve_answer-IsWeighed :
    (w : World) (ext state : String) (answer : Option (List CveInfo))
    → Holds (IsWeighed weight_cves) (cve_answer w ext state answer)
cve_answer-IsWeighed w ext state none = tt
cve_answer-IsWeighed w ext state (some []) = (refl, omega arith)
cve_answer-IsWeighed w ext state (some (c ∷ cves)) = (refl, score_cves-le w.dec _ _)

cve_in_state-IsWeighed :
    (w : World) (ext : String) (list : String → Option (List CveInfo)) (r : Result String)
    → Holds (λ c. IsWeighed weight_cves c.0) (and_then r (cve_in_state w ext list))
cve_in_state-IsWeighed w ext list (err e) = tt
cve_in_state-IsWeighed w ext list (ok state) = elim (Bool-cases (state == "evaluated")) [
  | inl t ↦ rw t (
      and_then-Holds (IsWeighed weight_cves) (λ c. IsWeighed weight_cves c.0)
        (cve_answer w ext state (list ext)) (λ c. ok (c, false))
        (cve_answer-IsWeighed w ext state (list ext)) (λ a h. h))
  | inr f ↦ rw f (elim (Bool-cases (state == "unsupported")) [
    | inl t ↦ rw t (refl, omega arith)
    | inr f ↦ rw f (refl, omega arith)
  ])
]

pub cve_category-IsWeighed :
    (w : World) (ext : String) (cves : Option (String → Option (List CveInfo)))
    → Holds (λ c. IsWeighed weight_cves c.0) (cve_from w ext cves)
cve_category-IsWeighed w ext none = (refl, omega arith)
cve_category-IsWeighed w ext (some list) =
    cve_in_state-IsWeighed w ext list (cve_evaluation_state w ext)

pub update_categories-IsWeighed :
    (w : World) (now : ℕ) (ext : String) (updates : Option (String → Option (List UpdateInfo)))
    → Holds
        (λ c. IsWeighed weight_updates c.0 × IsWeighed weight_image_age c.1)
        (update_from w now ext updates)
update_categories-IsWeighed w now ext none = ((refl, omega arith), (refl, omega arith))
update_categories-IsWeighed w now ext (some list) = go (list ext)
  where
    go :
        (answer : Option (List UpdateInfo))
        → Holds
            (λ c. IsWeighed weight_updates c.0 × IsWeighed weight_image_age c.1)
            (update_answer w now answer)
    go none = tt
    go (some []) = ((refl, omega arith), (refl, omega arith))
    go (some (u ∷ updates)) = (
      (refl, score_updates-le w.dec (u ∷ updates)),
      (refl, score_image_age-le w.dec now (u ∷ updates)),
    )

network_of-IsWeighed :
    (w : World) (ext : String) (insights : List Insight)
    → IsWeighed weight_network_exposure (network_of w ext insights)
network_of-IsWeighed w ext [] = (refl, omega arith)
network_of-IsWeighed w ext (i ∷ insights) = (refl, score_network_exposure-le w.dec _ _)

pub network_category-IsWeighed :
    (w : World) (id ext : String) (sec : Option Service)
    → IsWeighed weight_network_exposure (network_from w id ext sec)
network_category-IsWeighed w id ext none = (refl, omega arith)
network_category-IsWeighed w id ext (some s) =
    network_of-IsWeighed w ext (get_container_insights s id).insights
