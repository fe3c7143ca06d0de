-- ===== src/Security/Posture.antt =====
-- CheckPostureThreshold and SetThreshold of internal/security/scorer.go, and the callback that
-- internal/app/wiring.go sets. A check is one step: the source reads under one lock and writes under
-- another, so the model has one request at a time. The browser's event is `changed`.
pub mod Alerts
use pulseboard.Common.{
  ℕ, ◌+◌, ◌-◌, String, string_eq, Bool, true, false, not, ◌&&◌, ◌||◌, some, List, [], ◌∷◌, ◌++◌,
  ◌==◌, ltb, leb, eqb, if◌then◌else◌,
}
use pulseboard.Alert.Model.{severity_critical, severity_warning, severity_info, Event}
use pulseboard.Security.Categories.{color_level_of}

-- The fields of Scorer that the check reads: a threshold that is not positive is 0.
pub record Posture : Type 0 where
  pub threshold : ℕ
  pub last_infra_score : ℕ
  pub has_alert : Bool
  pub has_event : Bool

-- A call of a callback: the score, the one before, the color and, for an alert, whether it is a breach.
pub data PostureCall : Type 0 where
  changed : ℕ → ℕ → String → PostureCall
  posture_alert : ℕ → ℕ → String → Bool → PostureCall

abbrev pub distance : ℕ → ℕ → ℕ
distance a b = (a - b) + (b - a)

abbrev pub changed_calls : Posture → ℕ → String → List PostureCall
changed_calls p score color =
    let previous = p.last_infra_score in
    if ltb 0 previous
      && ((leb 5 (distance score previous) || not (color_level_of previous == color))
          && p.has_event)
    then changed score previous color ∷ []
    else []

abbrev pub was_below : Posture → Bool
was_below p = ltb 0 p.last_infra_score && ltb p.last_infra_score p.threshold

abbrev pub alert_calls : Posture → ℕ → String → List PostureCall
alert_calls p score color =
    if p.has_alert
    then (if ltb score p.threshold && not (was_below p)
        then posture_alert score p.last_infra_score color true ∷ []
        else (if not (ltb score p.threshold) && was_below p
            then posture_alert score p.last_infra_score color false ∷ []
            else []))
    else []

unfoldable pub check_posture_threshold : ℕ → String → Posture → Posture × List PostureCall
check_posture_threshold score color p = (
  record p { last_infra_score = score },
  if leb p.threshold 0 then [] else changed_calls p score color ++ alert_calls p score color,
)

abbrev pub set_threshold : ℕ → Posture → Posture
set_threshold threshold p = record p { threshold = threshold }

-- The texts that only people read.
pub record Texts : Type 0 where
  pub message : ℕ → ℕ → Bool → String
  pub details : ℕ → ℕ → String → String

abbrev pub posture_event : Texts → ℕ → ℕ → ℕ → ℕ → String → Bool → Event
posture_event texts threshold now score previous color is_breach = record {
  source = "security";
  alert_type = "posture_threshold";
  severity =
      if not is_breach
      then severity_info
      else (if ltb (score + 20) threshold then severity_critical else severity_warning);
  is_recover = not is_breach;
  message = texts.message score threshold is_breach;
  entity_type = "infrastructure";
  entity_id = "";
  entity_name = "infrastructure";
  details = some (texts.details score previous color);
  timestamp = now;
}

-- What the callbacks send to the alert engine.
abbrev pub posture_events : Texts → ℕ → ℕ → List PostureCall → List Event
posture_events texts threshold now [] = []
posture_events texts threshold now (changed _ _ _ ∷ calls) =
    posture_events texts threshold now calls
posture_events texts threshold now (posture_alert score previous color is_breach ∷ calls) =
    posture_event texts threshold now score previous color is_breach
    ∷ posture_events texts threshold now calls

-- A check of a score at a time, as HandleGetPosture makes it, and a run of them.
unfoldable pub checked : Texts → ℕ × ℕ → Posture → Posture × List Event
checked texts (score, now) p =
    let (next, calls) = check_posture_threshold score (color_level_of score) p in
    (next, posture_events texts p.threshold now calls)

unfoldable pub check_all : Texts → List (ℕ × ℕ) → Posture → Posture × List Event
check_all texts [] p = (p, [])
check_all texts (check ∷ checks) p =
    let done = checked texts check p in
    let rest = check_all texts checks done.0 in (rest.0, done.1 ++ rest.1)
