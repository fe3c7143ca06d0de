-- ===== src/Checks/SecurityRuns.antt =====
-- The settings, the scores and the posture of three containers.
use native.Mathlib.Nat.{div-mul-le_self, lt-div-mul-add}
use pulseboard.Common.{
  zero, ℕ, suc, ◌+◌, ◌*◌, ◌/◌, ◌≤◌, ◌<◌, string_eq, true, false, not, ◌||◌, Option, none, some,
  List, [], ◌∷◌, ◌==◌, ◌≡◌, refl, arith, map,
}
use pulseboard.Alert.Model.{Event}
use pulseboard.Alert.Deps.{Deps}
use pulseboard.Alert.Engine.{Engine, run, process_event}
use pulseboard.Alert.Engine.Invariant.{start, start-IsKeyed, run-IsKeyed}
use pulseboard.Alert.Engine.Standing.{stands}
use pulseboard.Common.Assoc.{lookup, insert, delete}
use pulseboard.Common.Int.{pos}
use pulseboard.Security.Insights.{
  Service, insight_count, remove_container, highest_from, update_container, type_set, new_service,
  is_empty, highest_severity,
}
use pulseboard.Security.Insights.Docker.{
  DockerSecurityConfig, analyze_docker, analyze_port_bindings, analyze_docker-highest,
}
use pulseboard.Security.Insights.Discovery as Discovery
use pulseboard.Security.Insights.Discovery.{Sync, sync_security, sync_all}
use pulseboard.Security.Insights.Alerts.{insight_key, sync_all-dangerous}
use pulseboard.Security.Scoring.{score_tls, score_cves, tally_tls, tally_cves}
use pulseboard.Security.Scoring.Exposure.{
  filter_acknowledged_cves, score_network_exposure, exposure_penalties,
  filter_acknowledged_insights, insight_finding_key,
}
use pulseboard.Security.Categories.{World, Result, err, ok, SecurityScore}
use pulseboard.Security.Scorer.{
  begin_score, total_weight, applicable_count, weighted_sum, summed_up, compute_container_score,
  score_container, invalidate_cache,
}
use pulseboard.Security.Scorer.Answers.{is_score, compute_container_score-is_score}
use pulseboard.Security.Scorer.Bounds.{IsNearest, IsNear, compute_container_score-IsNear}
use pulseboard.Security.Scorer.Cache.{
  Op, begins, ends, invalidated, after, IsRecent, begin_score-IsRecent,
}
use pulseboard.Security.Scorer.Infrastructure.{
  ContainerInfo, InfrastructurePosture, Sorts, score_infrastructure,
}
use pulseboard.Security.Scorer.Infrastructure.Mean.{answers, IsMean, score_infrastructure-IsMean}
use pulseboard.Security.Posture as Posture
use pulseboard.Security.Posture.{
  set_threshold, check_all, checked, check_posture_threshold, was_below,
}
use pulseboard.Security.Posture.Alerts.{posture_key, check_all-below, check_all-zero}
use pulseboard.Checks.AlertRuns.{on_desk}

abbrev open_database : DockerSecurityConfig
open_database = record {
  privileged = false;
  network_mode = "bridge";
  bindings = record { host_ip = "0.0.0.0"; port = 5432; protocol = "tcp" } ∷ [];
}

abbrev closed : DockerSecurityConfig
closed = record { privileged = false; network_mode = "bridge"; bindings = [] }

analyze_docker-highest_example :
    (highest_severity (analyze_docker "a" "db" open_database 5) ≡ "critical")
    × (is_empty (analyze_docker "a" "db" open_database 5) ≡ false)
analyze_docker-highest_example = analyze_docker-highest "a" "db" open_database 5

abbrev no_texts : Discovery.Texts
no_texts = record { resolved = λ s. s; message = λ l. ""; details = λ l. "" }

abbrev repaired : List Sync
repaired =
    record { id = "a"; name = "db"; cfg = open_database; now = 5 }
    ∷ record { id = "b"; name = "web"; cfg = open_database; now = 5 }
    ∷ record { id = "a"; name = "db"; cfg = closed; now = 9 }
    ∷ []

sync_all-dangerous_example :
    (not (
        stands
          (run (on_desk (sync_all no_texts repaired (new_service true true)).1) start).0
          (insight_key "a"))
      || false)
    ≡ true
unfolding sync_all sync_security update_container lookup insert type_set analyze_docker
    analyze_port_bindings
sync_all-dangerous_example =
    sync_all-dangerous no_texts repaired (new_service true true) "a"
      (on_desk (sync_all no_texts repaired (new_service true true)).1) start start-IsKeyed refl refl
      refl

-- Half up.
abbrev half_up : ℕ → ℕ → ℕ → ℕ
half_up s w zero = 0
half_up s w (suc t) = (2 * (s * w) + suc t) / (2 * suc t)

half_up-IsNearest : IsNearest half_up
half_up-IsNearest = record { not_above = not_above; not_below = not_below }
  where
    not_above : (s w t : ℕ) → s ≤ 100 → w ≤ t → t ≤ 100 → 2 * t * half_up s w t ≤ 2 * (s * w) + t
    not_above s w zero a b c = omega arith
    not_above s w (suc t) a b c = grind (arith, div-mul-le_self (2 * (s * w) + suc t) (2 * suc t))

    not_below : (s w t : ℕ) → s ≤ 100 → w ≤ t → t ≤ 100 → 2 * (s * w) ≤ 2 * t * half_up s w t + t
    not_below s w zero a b c = grind (arith, b)
    not_below s w (suc t) a b c =
        let top = 2 * (s * w) + suc t in
        let high : top < half_up s w (suc t) * (2 * suc t) + 2 * suc t =
          lt-div-mul-add (omega arith) in
        grind (arith, high)

-- An expired certificate and one that expires in ten days, a critical vulnerability that is
-- acknowledged and a high one, no update, and a database that is open.
abbrev three_readers : World
three_readers = record {
  dec = λ n. "1";
  share = half_up;
  certs = some (λ ext. some (
      record { status = "expired"; days_remaining = pos 0 }
      ∷ record { status = "expiring"; days_remaining = pos 10 }
      ∷ []));
  cves = some (λ ext. some (
      record { cve_id = "CVE-1"; severity = "critical" }
      ∷ record { cve_id = "CVE-2"; severity = "high" }
      ∷ []));
  cve_eval = some (λ ext. some (some "evaluated"));
  updates = some (λ ext. some []);
  sec = some (sync_all no_texts repaired (new_service true true)).0;
  acks = λ ext kind key. some (key == "CVE-1");
}

abbrev nothing_scored : SecurityScore
nothing_scored = record {
  container_id = "";
  container_name = "";
  total_score = 0;
  color_level = "red";
  categories = [];
  applicable_count = 0;
  is_partial = false;
}

abbrev the_score : Result (Option SecurityScore) → SecurityScore
the_score (err e) = nothing_scored
the_score (ok none) = nothing_scored
the_score (ok (some score)) = score

abbrev score_b : SecurityScore
score_b = the_score (compute_container_score three_readers 100 "b" "x" "web")

-- 20 * 30 % + 85 * 30 % + ..., rounded one by one.
score_b_lem : (score_b.total_score ≡ 73) × (score_b.color_level ≡ "yellow")
unfolding compute_container_score summed_up total_weight applicable_count weighted_sum score_tls
    score_cves tally_tls tally_cves sync_all sync_security update_container lookup insert delete
    type_set analyze_docker analyze_port_bindings filter_acknowledged_cves score_network_exposure
    exposure_penalties filter_acknowledged_insights insight_finding_key
score_b_lem = (refl, refl)

compute_container_score-is_score_example :
    is_score (compute_container_score three_readers 100 "b" "x" "web") ≡ true
compute_container_score-is_score_example =
    compute_container_score-is_score three_readers 100 "b" "x" "web" refl refl refl refl refl

answer_b : compute_container_score three_readers 100 "b" "x" "web" ≡ ok (some score_b)
unfolding compute_container_score summed_up total_weight applicable_count weighted_sum score_tls
    score_cves tally_tls tally_cves sync_all sync_security update_container lookup insert delete
    type_set analyze_docker analyze_port_bindings filter_acknowledged_cves score_network_exposure
    exposure_penalties filter_acknowledged_insights insight_finding_key
answer_b = refl

compute_container_score-IsNear_example : IsNear score_b
compute_container_score-IsNear_example =
    compute_container_score-IsNear three_readers 100 "b" "x" "web" score_b half_up-IsNearest
      answer_b

-- Asked at 100 and stored at 102, after an invalidation that came before the storing. The second of
-- two calls that run side by side has not ended.
abbrev asked_before : List Op
asked_before =
    ends 102 1
    ∷ invalidated "b"
    ∷ begins three_readers 101 "b2" "x" "web"
    ∷ begins three_readers 100 "b" "x" "web"
    ∷ []

abbrev failing : World
failing = record three_readers { certs = some (λ ext. none) }

-- Asked again nine seconds later, with readers that fail by then.
nine_later : (begin_score failing 111 "b" "x" "web" (after asked_before)).1 ≡ some score_b
unfolding begin_score after invalidate_cache compute_container_score summed_up total_weight
    applicable_count weighted_sum score_tls score_cves tally_tls tally_cves sync_all sync_security
    update_container lookup insert delete type_set analyze_docker analyze_port_bindings
    filter_acknowledged_cves score_network_exposure exposure_penalties filter_acknowledged_insights
    insight_finding_key
nine_later = refl

begin_score-IsRecent_example : IsRecent asked_before "b" score_b 111
begin_score-IsRecent_example =
    begin_score-IsRecent failing 111 "b" "x" "web" asked_before score_b nine_later

abbrev posture_texts : Posture.Texts
posture_texts = record { message = λ s t b. ""; details = λ s t c. "" }

abbrev watched : Posture.Posture
watched = record { threshold = 60; last_infra_score = 0; has_alert = true; has_event = true }

-- Down and up again.
abbrev dips : List (ℕ × ℕ)
dips = (80, 1) ∷ (50, 2) ∷ (30, 3) ∷ (75, 4) ∷ []

check_all-below_example :
    (not (stands (run (on_desk (check_all posture_texts dips watched).1) start).0 posture_key)
      || false)
    ≡ true
unfolding check_all checked check_posture_threshold lookup
check_all-below_example =
    check_all-below posture_texts dips watched (on_desk (check_all posture_texts dips watched).1)
      start start-IsKeyed refl refl refl refl refl

-- Nothing could be scored for a while.
abbrev falls : List (ℕ × ℕ)
falls = (80, 1) ∷ (50, 2) ∷ (0, 3) ∷ []

abbrev unscored : Posture.Posture
unscored = (check_all posture_texts falls watched).0

abbrev alerting : Engine
alerting = (run (on_desk (check_all posture_texts falls watched).1) start).0

abbrev rises : List (ℕ × ℕ)
rises = (90, 4) ∷ (85, 5) ∷ []

abbrev rise_events : List (Deps × Event)
rise_events = on_desk (check_all posture_texts rises unscored).1

check_all-zero_example : stands (run rise_events alerting).0 posture_key ≡ true
unfolding check_all checked check_posture_threshold run lookup insert process_event
check_all-zero_example =
    check_all-zero posture_texts rises unscored rise_events alerting
      (run-IsKeyed (on_desk (check_all posture_texts falls watched).1) start start-IsKeyed) refl
      refl refl refl

-- Two containers, one of which has just been scored.
abbrev two_containers : List (ContainerInfo × ℕ × ℕ)
two_containers =
    (record { id = "b"; external_id = "x"; name = "web" }, 105, 105)
    ∷ (record { id = "b2"; external_id = "x"; name = "web" }, 106, 107)
    ∷ []

abbrev any_order : Sorts
any_order = record { summaries = λ l. l; scores = λ l. l }

abbrev score_b2 : SecurityScore
score_b2 = the_score (compute_container_score three_readers 106 "b2" "x" "web")

two_scores :
    answers three_readers two_containers (after asked_before).cache
    ≡ map (λ o. ok o) (some score_b ∷ some score_b2 ∷ [])
unfolding score_container after invalidate_cache compute_container_score summed_up total_weight
    applicable_count weighted_sum score_tls score_cves tally_tls tally_cves sync_all sync_security
    update_container lookup insert delete type_set analyze_docker analyze_port_bindings
    filter_acknowledged_cves score_network_exposure exposure_penalties filter_acknowledged_insights
    insight_finding_key
two_scores = refl

score_infrastructure-IsMean_example :
    (p : InfrastructurePosture) × ((score_infrastructure any_order three_readers two_containers
        (after asked_before).cache).1
      ≡ ok p)
    × IsMean (score_b ∷ score_b2 ∷ []) p
    × (70 ≤ p.score)
    × (p.score ≤ 90)
unfolding compute_container_score summed_up total_weight applicable_count weighted_sum score_tls
    score_cves tally_tls tally_cves sync_all sync_security update_container lookup insert delete
    type_set analyze_docker analyze_port_bindings filter_acknowledged_cves score_network_exposure
    exposure_penalties filter_acknowledged_insights insight_finding_key
score_infrastructure-IsMean_example =
    score_infrastructure-IsMean any_order three_readers two_containers (after asked_before).cache
      (some score_b ∷ some score_b2 ∷ []) 70 90 two_scores (omega arith) refl

abbrev discovered : Service
discovered = (sync_all no_texts repaired (new_service true true)).0

-- "a" is repaired, "b" is not, until it is removed.
counted :
    (insight_count discovered "a" ≡ (0, ""))
    × (insight_count discovered "b" ≡ (1, "critical"))
    × (insight_count (remove_container "b" discovered) "b" ≡ (0, ""))
unfolding sync_all sync_security update_container lookup insert delete type_set analyze_docker
    analyze_port_bindings highest_from
counted = (refl, refl, refl)

-- A threshold of 0 turns the check off.
switched_off : (check_all posture_texts dips (set_threshold 0 watched)).1 ≡ []
unfolding check_all checked check_posture_threshold
switched_off = refl
