-- ===== src/Alert/Model.antt =====
-- internal/alert/model.go: the data that the engine and its stores exchange.
-- A Go `time.Time` is a number of seconds, a `*T` an `Option`; `Details map[string]any` is an
-- opaque text that only `json.Marshal`, a parameter of the engine, reads.
use pulseboard.Common.{
  ℕ, String, Bool, true, List, ◌&&◌, Option, ◌≡◌, ◌↔◌, arith, Comparable, string_eq, ◌==◌, eq_iff,
  if◌then◌else◌,
}
use pulseboard.Common.Int.{ℤ, pos, negsuc}

pub data AlertStatus : Type 0 where
  active resolved silenced : AlertStatus

abbrev pub severity_critical : String
severity_critical = "critical"

abbrev pub severity_warning : String
severity_warning = "warning"

abbrev pub severity_info : String
severity_info = "info"

pub record Event : Type 0 where
  pub source : String
  pub alert_type : String
  pub severity : String
  pub is_recover : Bool
  pub message : String
  pub entity_type : String
  pub entity_id : String
  pub entity_name : String
  pub details : Option String
  pub timestamp : ℕ

pub record Alert : Type 0 where
  pub id : String
  pub source : String
  pub alert_type : String
  pub severity : String
  pub status : AlertStatus
  pub message : String
  pub entity_type : String
  pub entity_id : String
  pub entity_name : String
  pub details : String
  pub resolved_by_id : Option String
  pub fired_at : ℕ
  pub resolved_at : Option ℕ

pub record NotificationChannel : Type 0 where
  pub id : String
  pub channel_type : String
  pub url : String
  pub enabled : Bool

pub record AlertTrigger : Type 0 where
  pub id : String
  pub filter_severities : String
  pub filter_sources : String
  pub filter_scopes : String
  pub notify_on_resolve : Bool
  pub channel_ids : List String

pub record SilenceRule : Type 0 where
  pub id : String
  pub entity_type : String
  pub entity_id : Option String
  pub source : String

-- activeAlertKey of engine.go
pub record ActiveAlertKey : Type 0 where
  pub source : String
  pub alert_type : String
  pub entity_type : String
  pub entity_id : String

abbrev pub event_key : Event → ActiveAlertKey
event_key evt = record {
  source = evt.source;
  alert_type = evt.alert_type;
  entity_type = evt.entity_type;
  entity_id = evt.entity_id;
}

abbrev pub alert_key : Alert → ActiveAlertKey
alert_key a = record {
  source = a.source;
  alert_type = a.alert_type;
  entity_type = a.entity_type;
  entity_id = a.entity_id;
}

-- Go compares the keys of the map field by field.
abbrev key_beq : ActiveAlertKey → ActiveAlertKey → Bool
key_beq k j =
    k.source == j.source
    && (k.alert_type == j.alert_type
        && (k.entity_type == j.entity_type && k.entity_id == j.entity_id))

pub key_beq_iff : (k j : ActiveAlertKey) → (key_beq k j ≡ true) ↔ (k ≡ j)
key_beq_iff k j = ground (
  arith,
  eq_iff k.source j.source,
  eq_iff k.alert_type j.alert_type,
  eq_iff k.entity_type j.entity_type,
  eq_iff k.entity_id j.entity_id,
)

instance abbrev pub key_eq : Comparable ActiveAlertKey
key_eq = record { same = key_beq; same_iff = key_beq_iff }

-- severityRank: a text that is no severity ranks below all.
unfoldable pub severity_rank : String → ℤ
severity_rank s =
    if s == severity_info
    then pos 0
    else if s == severity_warning
    then pos 1
    else if s == severity_critical
    then pos 2
    else negsuc 0
