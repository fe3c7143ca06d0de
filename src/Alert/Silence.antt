-- ===== src/Alert/Silence.antt =====
-- matchesSilenceRule and checkSilenceRules of internal/alert/engine.go.
use pulseboard.Common.{
  String, string_eq, Bool, true, false, not, ◌&&◌, Option, none, some, ◌==◌, any, if◌then◌else◌,
}
use pulseboard.Alert.Model.{Event, SilenceRule}
use pulseboard.Alert.Deps.{Deps}

abbrev is_nil : Option String → Bool
is_nil none = true
is_nil (some s) = false

-- `rule.EntityID != nil && *rule.EntityID != evt.EntityID`
abbrev names_other : Option String → String → Bool
names_other none id = false
names_other (some s) id = not (s == id)

unfoldable pub matches_silence_rule : SilenceRule → Event → Bool
matches_silence_rule rule evt =
    if rule.entity_type == "" && (rule.source == "" && is_nil rule.entity_id)
    then true
    else if not (rule.source == "") && not (rule.source == evt.source)
    then false
    else if not (rule.entity_type == "") && not (rule.entity_type == evt.entity_type)
    then false
    else if names_other rule.entity_id evt.entity_id
    then false
    else true

-- The store's error comes before the suppressor, and means "not silenced".
unfoldable pub check_silence_rules : Deps → Event → Bool
unfolding matches_silence_rule
check_silence_rules d evt = elim d.silence_rules [
  | none ↦ false
  | some rules ↦
      if any (λ rule. matches_silence_rule rule evt) rules
      then true
      else elim (d.is_suppressed evt.source evt.entity_type evt.entity_id) [
        | none ↦ false
        | some suppressed ↦ suppressed
      ]
]
