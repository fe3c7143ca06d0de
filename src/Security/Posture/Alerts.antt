-- ===== src/Security/Posture/Alerts.antt =====
-- The alert on the score of the infrastructure.
use mathlib.Core.Path.{subst}
use pulseboard.Common.{
  ℕ, string_eq, Bool, true, false, not, ◌&&◌, ◌||◌, List, [], ◌∷◌, ◌==◌, ◌≡◌, refl, sym, ◌∙◌, ap,
  arith, all, all-append, select, ltb, leb,
}
use pulseboard.Alert.Model.{Event, ActiveAlertKey, key_eq, event_key}
use pulseboard.Alert.Deps.{Deps}
use pulseboard.Alert.Engine.{Engine, run}
use pulseboard.Alert.Engine.Invariant.{IsKeyed}
use pulseboard.Alert.Engine.Standing.{
  stands, events_of, recovers, opened, opened-append, opened-select, run-opened, run-stands,
  all-recovers-select,
}
use pulseboard.Security.Posture.{
  Posture, check_posture_threshold, was_below, Texts, checked, check_all,
}

abbrev pub posture_key : ActiveAlertKey
posture_key = record {
  source = "security";
  alert_type = "posture_threshold";
  entity_type = "infrastructure";
  entity_id = "";
}

checked-opened :
    (texts : Texts) (score now : ℕ) (p : Posture)
    → p.has_alert ≡ true
    → ltb 0 p.threshold ≡ true
    → ltb 0 score ≡ true
    → ((checked texts (score, now) p).0.has_alert ≡ true)
      × ((checked texts (score, now) p).0.threshold ≡ p.threshold)
      × (was_below (checked texts (score, now) p).0 ≡ ltb score p.threshold)
      × (opened posture_key (was_below p) (checked texts (score, now) p).1 ≡ ltb score p.threshold)
unfolding checked check_posture_threshold
checked-opened texts score now p a t s = ground (arith, a, t, s)

-- The last score, or whether the one before the run, was below the threshold.
abbrev pub last_below : ℕ → Bool → List (ℕ × ℕ) → Bool
last_below threshold b [] = b
last_below threshold b (check ∷ checks) = last_below threshold (ltb check.0 threshold) checks

check_all-opened :
    (texts : Texts) (checks : List (ℕ × ℕ)) (p : Posture)
    → p.has_alert ≡ true
    → ltb 0 p.threshold ≡ true
    → all (λ check. ltb 0 check.0) checks ≡ true
    → opened posture_key (was_below p) (check_all texts checks p).1
      ≡ last_below p.threshold (was_below p) checks
unfolding check_all
check_all-opened texts [] p a t s = refl
check_all-opened texts ((score, now) ∷ checks) p a t s =
    let done = checked texts (score, now) p in
    let (alerts, same, below, opens) = checked-opened texts score now p a t (ground (arith, s)) in
    let rest =
      check_all-opened texts checks done.0 alerts (ap (ltb 0) same ∙ t) (ground (arith, s)) in
    opened-append posture_key (was_below p) done.1 (check_all texts checks done.0).1
    ∙ ap (λ b. opened posture_key b (check_all texts checks done.0).1) (opens ∙ sym below)
    ∙ rest
    ∙ ap (λ n. last_below n (was_below done.0) checks) same
    ∙ ap (λ b. last_below p.threshold b checks) below

-- The events of the check, among those of everything else.
abbrev pub is_posture : Event → Bool
is_posture evt = evt.source == "security" && evt.alert_type == "posture_threshold"

key-is_posture :
    (evts : List Event)
    → all (λ evt. is_posture evt || not (event_key evt == posture_key)) evts ≡ true
key-is_posture [] = refl
key-is_posture (evt ∷ evts) = ground (arith, key-is_posture evts)

-- The alert on the score of the infrastructure goes with the score: with a positive threshold and the
-- callback set, if no score of a run of checks is 0 and the engine receives, of this alert, exactly
-- the events that the run makes, among any others, then it is active afterwards only if the last
-- score was below the threshold; this given that before the run it is active only if the score then
-- was below and positive.
pub check_all-below :
    (texts : Texts) (checks : List (ℕ × ℕ)) (p : Posture) (evts : List (Deps × Event)) (e : Engine)
    → IsKeyed e
    → p.has_alert ≡ true
    → ltb 0 p.threshold ≡ true
    → all (λ check. ltb 0 check.0) checks ≡ true
    → select is_posture (events_of evts) ≡ (check_all texts checks p).1
    → (not (stands e posture_key) || was_below p) ≡ true
    → (not (stands (run evts e).0 posture_key) || last_below p.threshold (was_below p) checks)
      ≡ true
check_all-below texts checks p evts e h a t s q l =
    subst (λ b. (not (stands (run evts e).0 posture_key) || b) ≡ true)
      (sym (
          opened-select is_posture posture_key (was_below p) (events_of evts)
            (key-is_posture (events_of evts)))
        ∙ ap (opened posture_key (was_below p)) q
        ∙ check_all-opened texts checks p a t s)
      (run-opened evts e posture_key (was_below p) h l)

-- A check that follows a score of 0 or one that was not below sends no recovery.
checked-recovers :
    (texts : Texts) (score now : ℕ) (p : Posture)
    → was_below p ≡ false
    → leb p.threshold score ≡ true
    → (was_below (checked texts (score, now) p).0 ≡ false)
      × ((checked texts (score, now) p).0.threshold ≡ p.threshold)
      × (all (λ evt. not (recovers posture_key evt)) (checked texts (score, now) p).1 ≡ true)
unfolding checked check_posture_threshold
checked-recovers texts score now p w l = ground (arith, w, l)

check_all-recovers :
    (texts : Texts) (checks : List (ℕ × ℕ)) (p : Posture)
    → was_below p ≡ false
    → all (λ check. leb p.threshold check.0) checks ≡ true
    → all (λ evt. not (recovers posture_key evt)) (check_all texts checks p).1 ≡ true
unfolding check_all
check_all-recovers texts [] p w l = refl
check_all-recovers texts ((score, now) ∷ checks) p w l =
    let done = checked texts (score, now) p in
    let (still, same, quiet) = checked-recovers texts score now p w (ground (arith, l)) in
    let high = ap (λ n. all (λ check. leb n check.0) checks) same in
    all-append (λ evt. not (recovers posture_key evt)) done.1 (check_all texts checks done.0).1
    ∙ ground (arith, quiet, check_all-recovers texts checks done.0 still (high ∙ ground (arith, l)))

-- A score of 0, which is also the posture of an installation where no container has a score, counts as
-- no score yet: if the last score was 0 and the alert is active, then however often the score is at
-- the threshold or above it afterwards, the alert stays active, given that the engine receives, of
-- this alert, exactly the events that the checks make.
pub check_all-zero :
    (texts : Texts) (checks : List (ℕ × ℕ)) (p : Posture) (evts : List (Deps × Event)) (e : Engine)
    → IsKeyed e
    → p.last_infra_score ≡ 0
    → all (λ check. leb p.threshold check.0) checks ≡ true
    → select is_posture (events_of evts) ≡ (check_all texts checks p).1
    → stands e posture_key ≡ true
    → stands (run evts e).0 posture_key ≡ true
check_all-zero texts checks p evts e h z l q s =
    run-stands evts e posture_key h
      (all-recovers-select is_posture posture_key (events_of evts) (key-is_posture (events_of evts))
        (ap (all λ evt. not (recovers posture_key evt)) q
          ∙ check_all-recovers texts checks p (ground (arith, z)) l))
      s
