-- ===== src/Escalation/Model.antt =====
-- internal/alert/escalation/model.go, and the statuses of runner.go.
-- A time is in whole seconds, as the rows of the store keep it. Each delay is a whole number of
-- seconds, so adding it before or after the cut to seconds is the same.
use pulseboard.Common.{
  ℕ, String, string_eq, Bool, true, false, Option, List, ◌&&◌, ◌≡◌, ◌↔◌, arith, Comparable, ◌==◌,
  eq_iff,
}
use pulseboard.Common.Int.{ℤ}
use pulseboard.Alert.Model.{Alert, NotificationChannel}

pub record Scope : Type 0 where
  pub kind : String
  pub ref_id : String

abbrev scope_beq : Scope → Scope → Bool
scope_beq s t = s.kind == t.kind && s.ref_id == t.ref_id

pub scope_beq_iff : (s t : Scope) → (scope_beq s t ≡ true) ↔ (s ≡ t)
scope_beq_iff s t = ground (arith, eq_iff s.kind t.kind, eq_iff s.ref_id t.ref_id)

instance abbrev pub scope_eq : Comparable Scope
scope_eq = record { same = scope_beq; same_iff = scope_beq_iff }

pub record Filters : Type 0 where
  pub severities : List String
  pub scopes : List Scope
  pub tags : List String

pub record Level : Type 0 where
  pub delay_seconds : ℕ
  pub channel_ids : List String

pub record Policy : Type 0 where
  pub id : String
  pub name : String
  pub filters : Filters
  pub levels : List Level

pub data RunStatus : Type 0 where
  run_active paused_by_maintenance stopped_by_ack stopped_by_resolution : RunStatus
  stopped_by_policy_deletion exhausted : RunStatus

-- status IN ('active','paused_by_maintenance')
abbrev pub is_open : RunStatus → Bool
is_open run_active = true
is_open paused_by_maintenance = true
is_open _ = false

abbrev pub is_paused : RunStatus → Bool
is_paused paused_by_maintenance = true
is_paused _ = false

-- `last_executed_level_index` is `none` for the -1 of a run that has executed no level.
pub record Run : Type 0 where
  pub id : String
  pub policy_id : Option String
  pub policy_snapshot_json : String
  pub alert_id : String
  pub status : RunStatus
  pub last_executed_level_index : Option ℕ
  pub started_at : ℕ
  pub ended_at : Option ℕ
  pub next_action_at : Option ℕ

pub data DeliveryStatus : Type 0 where
  pending sent failed abandoned : DeliveryStatus

pub record Delivery : Type 0 where
  pub id : String
  pub run_id : String
  pub level_index : ℤ
  pub channel_id : Option String
  pub status : DeliveryStatus
  pub error : String
  pub attempt_started_at : ℕ
  pub sent_at : Option ℕ

-- alert.Acknowledgment
pub record Acknowledgment : Type 0 where
  pub by : String
  pub acknowledged_at : ℕ

-- A goroutine that has been started and has yet to send.
pub record Send : Type 0 where
  pub delivery : Delivery
  pub alert : Alert
  pub channel : NotificationChannel
