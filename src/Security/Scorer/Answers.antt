-- ===== src/Security/Scorer/Answers.antt =====
-- When a container has a score.
use pulseboard.Common.{
  ℕ, String, string_eq, Bool, true, false, Option, none, some, List, [], ◌∷◌, ◌==◌, ◌≡◌, refl,
  arith, leb, Bool-cases, inl, inr,
}
use pulseboard.Security.Insights.{Insight, Service, get_container_insights}
use pulseboard.Security.Scoring.{CertificateInfo, CveInfo, UpdateInfo}
use pulseboard.Security.Categories.{
  World, Result, err, ok, and_then, CategoryScore, SecurityScore, tls_answer, tls_from,
  tls_category, evaluation_answer, evaluation_from, cve_answer, cve_in_state, cve_from,
  cve_category, cve_evaluation_state, update_answer, update_from, update_categories, network_of,
  network_from, network_category,
}
use pulseboard.Security.Scorer.{applicable_count, summed_up, compute_container_score}

abbrev pub is_present {ℓ} : {A : Type ℓ} → Option A → Bool
is_present none = false
is_present (some a) = true

-- A reader that is absent or answers without an error.
abbrev pub is_readable : {A : Type 0} → String → Option (String → Option A) → Bool
is_readable ext none = true
is_readable ext (some list) = is_present (list ext)

abbrev is_ok : {A : Type 0} → Result A → Bool
is_ok (err e) = false
is_ok (ok a) = true

abbrev pub is_score : Result (Option SecurityScore) → Bool
is_score (err e) = false
is_score (ok score) = is_present score

and_then-is_ok :
    {A B : Type 0} (r : Result A) (f : A → Result B)
    → is_ok r ≡ true
    → ((a : A) → is_ok (f a) ≡ true)
    → is_ok (and_then r f) ≡ true
and_then-is_ok (err e) f h k = h
and_then-is_ok (ok a) f h k = k a

and_then-is_score :
    {A : Type 0} (r : Result A) (f : A → Result (Option SecurityScore))
    → is_ok r ≡ true
    → ((a : A) → is_score (f a) ≡ true)
    → is_score (and_then r f) ≡ true
and_then-is_score (err e) f h k = cc
and_then-is_score (ok a) f h k = k a

tls_answer-is_ok :
    (w : World) (o : Option (List CertificateInfo))
    → is_present o ≡ true
    → is_ok (tls_answer w o) ≡ true
tls_answer-is_ok w none h = h
tls_answer-is_ok w (some []) h = refl
tls_answer-is_ok w (some (c ∷ certs)) h = refl

tls_from-is_ok :
    (w : World) (ext : String) (certs : Option (String → Option (List CertificateInfo)))
    → is_readable ext certs ≡ true
    → is_ok (tls_from w ext certs) ≡ true
tls_from-is_ok w ext none h = refl
tls_from-is_ok w ext (some list) h = tls_answer-is_ok w (list ext) h

evaluation_answer-is_ok :
    (o : Option (Option String)) → is_present o ≡ true → is_ok (evaluation_answer o) ≡ true
evaluation_answer-is_ok none h = h
evaluation_answer-is_ok (some none) h = refl
evaluation_answer-is_ok (some (some status)) h = refl

evaluation_from-is_ok :
    (ext : String) (eval : Option (String → Option (Option String)))
    → is_readable ext eval ≡ true
    → is_ok (evaluation_from ext eval) ≡ true
evaluation_from-is_ok ext none h = refl
evaluation_from-is_ok ext (some read) h = evaluation_answer-is_ok (read ext) h

cve_answer-is_ok :
    (w : World) (ext state : String) (o : Option (List CveInfo))
    → is_present o ≡ true
    → is_ok (cve_answer w ext state o) ≡ true
cve_answer-is_ok w ext state none h = h
cve_answer-is_ok w ext state (some []) h = refl
cve_answer-is_ok w ext state (some (c ∷ cves)) h = refl

cve_in_state-is_ok :
    (w : World) (ext state : String) (list : String → Option (List CveInfo))
    → is_present (list ext) ≡ true
    → is_ok (cve_in_state w ext list state) ≡ true
cve_in_state-is_ok w ext state list h = elim (Bool-cases (state == "evaluated")) [
  | inl t ↦ rw t (
      and_then-is_ok (cve_answer w ext state (list ext)) (λ c. ok (c, false))
        (cve_answer-is_ok w ext state (list ext) h) (λ a. refl))
  | inr f ↦
      rw f (elim (Bool-cases (state == "unsupported")) [ inl t ↦ rw t refl | inr f ↦ rw f refl ])
]

cve_from-is_ok :
    (w : World) (ext : String) (cves : Option (String → Option (List CveInfo)))
    → is_readable ext cves ≡ true
    → is_readable ext w.cve_eval ≡ true
    → is_ok (cve_from w ext cves) ≡ true
cve_from-is_ok w ext none h k = refl
cve_from-is_ok w ext (some list) h k =
    and_then-is_ok (cve_evaluation_state w ext) (cve_in_state w ext list)
      (evaluation_from-is_ok ext w.cve_eval k) (λ state. cve_in_state-is_ok w ext state list h)

update_answer-is_ok :
    (w : World) (now : ℕ) (o : Option (List UpdateInfo))
    → is_present o ≡ true
    → is_ok (update_answer w now o) ≡ true
update_answer-is_ok w now none h = h
update_answer-is_ok w now (some []) h = refl
update_answer-is_ok w now (some (u ∷ updates)) h = refl

update_from-is_ok :
    (w : World) (now : ℕ) (ext : String) (updates : Option (String → Option (List UpdateInfo)))
    → is_readable ext updates ≡ true
    → is_ok (update_from w now ext updates) ≡ true
update_from-is_ok w now ext none h = refl
update_from-is_ok w now ext (some list) h = update_answer-is_ok w now (list ext) h

-- With the security service the exposure always applies.
network_of-applicable :
    (w : World) (ext : String) (insights : List Insight)
    → (network_of w ext insights).applicable ≡ true
network_of-applicable w ext [] = refl
network_of-applicable w ext (i ∷ insights) = refl

network_from-applicable :
    (w : World) (id ext : String) (sec : Option Service)
    → is_present sec ≡ true
    → (network_from w id ext sec).applicable ≡ true
network_from-applicable w id ext none h = absurd (ground (arith, h))
network_from-applicable w id ext (some s) h =
    network_of-applicable w ext (get_container_insights s id).insights

summed_up-is_score :
    (w : World) (id name : String) (tls cves updates net age : CategoryScore) (is_partial : Bool)
    → net.applicable ≡ true
    → is_score (summed_up w id name (tls ∷ cves ∷ updates ∷ net ∷ age ∷ []) is_partial) ≡ true
unfolding summed_up applicable_count
summed_up-is_score w id name tls cves updates net age is_partial h =
    let some_apply : leb 1 (applicable_count (tls ∷ cves ∷ updates ∷ net ∷ age ∷ [])) ≡ true =
      ground (arith, h) in
    rw some_apply refl

-- A container has a score, so neither an error nor nothing, whenever no reader fails for it and the
-- security service is there: also where no other reader is.
pub compute_container_score-is_score :
    (w : World) (now : ℕ) (id ext name : String)
    → is_readable ext w.certs ≡ true
    → is_readable ext w.cves ≡ true
    → is_readable ext w.cve_eval ≡ true
    → is_readable ext w.updates ≡ true
    → is_present w.sec ≡ true
    → is_score (compute_container_score w now id ext name) ≡ true
unfolding compute_container_score
compute_container_score-is_score w now id ext name a b c d s =
    and_then-is_score (tls_category w ext) _ (tls_from-is_ok w ext w.certs a) (λ tls.
      and_then-is_score (cve_category w ext) _ (cve_from-is_ok w ext w.cves b c) (λ cves.
        and_then-is_score (update_categories w now ext) _ (update_from-is_ok w now ext w.updates d)
          (λ updates.
            summed_up-is_score w id name tls cves.0 updates.0 (network_category w id ext) updates.1
              cves.1 (network_from-applicable w id ext w.sec s))))
