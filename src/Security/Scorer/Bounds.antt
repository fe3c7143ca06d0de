-- ===== src/Security/Scorer/Bounds.antt =====
-- How far the score of a container is from the weighted mean of its categories.
use mathlib.Core.Path.{subst}
use pulseboard.Common.{
  ℕ, ◌+◌, ◌*◌, ◌≤◌, String, string_eq, Bool, Option, none, some, List, [], ◌∷◌, ◌≡◌, refl, arith,
  leb, min, length, select, sym, ◌∙◌, if◌then◌else◌, Bool-cases, inl, inr, All,
}
use pulseboard.Security.Categories.{
  World, ok, CategoryScore, SecurityScore, weight_tls, weight_cves, weight_updates,
  weight_image_age,
}
use pulseboard.Security.Categories.{tls_category, cve_category, update_categories, network_category}
use pulseboard.Security.Categories.Range.{
  IsInRange, Holds, and_then-Holds, IsWeighed, tls_category-IsWeighed, cve_category-IsWeighed,
  update_categories-IsWeighed, network_category-IsWeighed,
}
use pulseboard.Security.Scorer.{
  score_of, summed_up, compute_container_score, total_weight, applicable_count, weighted_sum,
  reported,
}

-- The share is a whole number nearest to s * w / t; nothing is asked where two are equally near.
pub record IsNearest (share : ℕ → ℕ → ℕ → ℕ) : Type 0 where
  pub not_above : (s w t : ℕ) → s ≤ 100 → w ≤ t → t ≤ 100 → 2 * t * share s w t ≤ 2 * (s * w) + t
  pub not_below : (s w t : ℕ) → s ≤ 100 → w ≤ t → t ≤ 100 → 2 * (s * w) ≤ 2 * t * share s w t + t

-- Each applicable category's score times its weight, added up.
abbrev exact_sum : List CategoryScore → ℕ
exact_sum [] = 0
exact_sum (c ∷ cs) = (if c.applicable then c.sub_score * c.weight else 0) + exact_sum cs

-- The applicable categories, and a sum over categories.
abbrev pub applicable : List CategoryScore → List CategoryScore
applicable cs = select (λ c. c.applicable) cs

abbrev pub sum_by : (CategoryScore → ℕ) → List CategoryScore → ℕ
sum_by f [] = 0
sum_by f (c ∷ cs) = f c + sum_by f cs

over_applicable :
    (cs : List CategoryScore)
    → (total_weight cs ≡ sum_by (λ c. c.weight) (applicable cs))
      × (exact_sum cs ≡ sum_by (λ c. c.sub_score * c.weight) (applicable cs))
      × (applicable_count cs ≡ length (applicable cs))
unfolding total_weight applicable_count
over_applicable [] = (refl, refl, refl)
over_applicable (c ∷ cs) =
    let (w, e, n) = over_applicable cs in
    elim (Bool-cases c.applicable) [
      | inl a ↦ simp a (omega (arith, w), omega (arith, e), omega (arith, n))
      | inr f ↦ simp f (omega (arith, w), omega (arith, e), omega (arith, n))
    ]

weighted_sum-near :
    (share : ℕ → ℕ → ℕ → ℕ) (cs : List CategoryScore) (t : ℕ)
    → IsNearest share
    → All IsInRange cs
    → total_weight cs ≤ t
    → t ≤ 100
    → (2 * t * weighted_sum share t cs ≤ 2 * exact_sum cs + applicable_count cs * t)
      × (2 * exact_sum cs ≤ 2 * t * weighted_sum share t cs + applicable_count cs * t)
unfolding weighted_sum applicable_count total_weight
weighted_sum-near share [] t n r l h = (omega arith, omega arith)
weighted_sum-near share (c ∷ cs) t n r l h =
    let (above, below) = weighted_sum-near share cs t n r.1 (omega (arith, l)) h in
    elim (Bool-cases c.applicable) [
      | inl a ↦
          let w : c.weight ≤ t = ground (arith, a, l) in
          rw a (
            grind (arith, above, n.not_above c.sub_score c.weight t r.0 w h),
            grind (arith, below, n.not_below c.sub_score c.weight t r.0 w h),
          )
      | inr f ↦ rw f (grind (arith, above), grind (arith, below))
    ]

exact_sum-le : (cs : List CategoryScore) → All IsInRange cs → exact_sum cs ≤ 100 * total_weight cs
unfolding total_weight
exact_sum-le [] r = omega arith
exact_sum-le (c ∷ cs) r = elim (Bool-cases c.applicable) [
  | inl a ↦ rw a (grind (arith, r, exact_sum-le cs r.1))
  | inr f ↦ rw f (omega (arith, exact_sum-le cs r.1))
]

-- The clamp at 100 keeps the distance: the exact mean is at most 100.
min-near :
    (sum exact t n : ℕ)
    → 2 * t * sum ≤ 2 * exact + n * t
    → 2 * exact ≤ 2 * t * sum + n * t
    → exact ≤ 100 * t
    → (2 * t * min 100 sum ≤ 2 * exact + n * t) × (2 * exact ≤ 2 * t * min 100 sum + n * t)
min-near sum exact t n a b h = elim (Bool-cases (leb sum 100)) [
  | inl l ↦ let small : min 100 sum ≡ sum = ground (arith, l) in rw small (a, b)
  | inr g ↦
      let large : min 100 sum ≡ 100 = ground (arith, g) in
      let above : 100 ≤ sum = ground (arith, g) in
      rw large (grind (arith, a, b, h, above), grind (arith, a, b, h))
]

reported_lem :
    (cs : List CategoryScore)
    → (total_weight (reported cs) ≡ total_weight cs)
      × (exact_sum (reported cs) ≡ exact_sum cs)
      × (applicable_count (reported cs) ≡ applicable_count cs)
unfolding reported total_weight applicable_count
reported_lem [] = (refl, refl, refl)
reported_lem (c ∷ cs) = ground (arith, reported_lem cs)

-- What the score of a container promises.
abbrev pub IsNear : SecurityScore → Type 0
IsNear score =
    let cs = applicable score.categories in
    let t = sum_by (λ c. c.weight) cs in
    let exact = sum_by (λ c. c.sub_score * c.weight) cs in
    (score.applicable_count ≡ length cs)
    × (1 ≤ length cs)
    × (score.total_score ≤ 100)
    × (2 * t * score.total_score ≤ 2 * exact + length cs * t)
    × (2 * exact ≤ 2 * t * score.total_score + length cs * t)

abbrev IfSome : {A : Type 0} → (A → Type 0) → Option A → Type 0
IfSome P none = Unit
IfSome P (some a) = P a

score_of-IsNear :
    (w : World) (id name : String) (cs : List CategoryScore) (is_partial : Bool)
    → IsNearest w.share
    → All IsInRange cs
    → total_weight cs ≤ 100
    → 1 ≤ applicable_count cs
    → IsNear (score_of w id name cs is_partial)
score_of-IsNear w id name cs is_partial n r h l =
    let t = total_weight cs in
    let sum = weighted_sum w.share t cs in
    let (above, below) = weighted_sum-near w.share cs t n r (omega arith) h in
    let (w_eq, e_eq, n_eq) = reported_lem cs in
    let (w_sum, e_sum, n_sum) = over_applicable (reported cs) in
    let weights = sym w_sum ∙ w_eq in
    let exact = sym e_sum ∙ e_eq in
    let counted = sym n_sum ∙ n_eq in
    let (over, under) =
      min-near sum (exact_sum cs) t (applicable_count cs) above below (exact_sum-le cs r) in
    rw (weights, exact, counted) (refl, l, omega arith, over, under)

summed_up-IsNear :
    (w : World) (id name : String) (cs : List CategoryScore) (is_partial : Bool)
    → IsNearest w.share
    → All IsInRange cs
    → total_weight cs ≤ 100
    → Holds (IfSome IsNear) (summed_up w id name cs is_partial)
unfolding summed_up
summed_up-IsNear w id name cs is_partial n r h = elim (Bool-cases (leb 1 (applicable_count cs))) [
  | inl t ↦ rw t (score_of-IsNear w id name cs is_partial n r h (ground (arith, t)))
  | inr f ↦ rw f tt
]

compute_container_score-Holds :
    (w : World) (now : ℕ) (id ext name : String)
    → IsNearest w.share
    → Holds (IfSome IsNear) (compute_container_score w now id ext name)
unfolding compute_container_score total_weight
compute_container_score-Holds w now id ext name n =
    and_then-Holds (IsWeighed weight_tls) (IfSome IsNear) (tls_category w ext) _
      (tls_category-IsWeighed w ext w.certs)
      (λ tls p.
        and_then-Holds (λ c. IsWeighed weight_cves c.0) (IfSome IsNear) (cve_category w ext) _
          (cve_category-IsWeighed w ext w.cves)
          (λ cves q.
            and_then-Holds (λ c. IsWeighed weight_updates c.0 × IsWeighed weight_image_age c.1)
              (IfSome IsNear) (update_categories w now ext) _
              (update_categories-IsWeighed w now ext w.updates)
              (λ updates r.
                let net = network_category-IsWeighed w id ext w.sec in
                summed_up-IsNear w id name
                  (tls ∷ cves.0 ∷ updates.0 ∷ network_category w id ext ∷ updates.1 ∷ []) cves.1 n
                  (p.1, (q.1, (r.0.1, (net.1, (r.1.1, tt)))))
                  (ground (arith, p.0, q.0, r.0.0, net.0, r.1.0)))))

-- The score of a container is at most 100 and within half a point per applicable category of the
-- weighted mean of the category scores it reports, weighted as reported and among the applicable
-- ones only, of which there is at least one: this whatever the readers answer, if the shares are
-- rounded to a nearest whole number.
pub compute_container_score-IsNear :
    (w : World) (now : ℕ) (id ext name : String) (score : SecurityScore)
    → IsNearest w.share
    → compute_container_score w now id ext name ≡ ok (some score)
    → IsNear score
compute_container_score-IsNear w now id ext name score n e =
    subst (Holds (IfSome IsNear)) e (compute_container_score-Holds w now id ext name n)
