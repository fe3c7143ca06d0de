-- ===== src/Alert/Deps.antt =====
-- The dependencies of the engine (EngineDeps of internal/alert/engine.go and the extension points
-- of internal/alert/model.go) as parameters, and the calls that it makes on them.
-- A field gives the answer of one call; `none` is a Go error.
use pulseboard.Common.{ℕ, String, Bool, Option, some, List, ◌≡◌}
use pulseboard.Alert.Model.{AlertStatus, Alert, NotificationChannel, AlertTrigger, SilenceRule}

pub record Deps : Type 0 where
  -- json.Marshal of the details
  pub marshal : String → Option String
  -- AlertStore
  pub store_insert : Alert → Option String
  pub store_escalate : String → Bool
  pub list_active : Option (List Alert)
  -- SilenceStore.GetActiveSilenceRules and MaintenanceSuppressor.IsSuppressed
  pub silence_rules : Option (List SilenceRule)
  pub is_suppressed : String → String → String → Option Bool
  -- TriggerStore.ListEnabledTriggers
  pub enabled_triggers : Option (List AlertTrigger)
  -- EntityRouter.Route: the ids that it returns, also beside an error
  pub route : String → String → String → List String
  -- ChannelStore: `some none` is a channel that is not there
  pub get_channel : String → Option (Option NotificationChannel)
  pub store_delivery : String → String → Option String
  -- The optional dependencies.
  pub has_notifier : Bool
  pub has_broadcaster : Bool

-- GetChannel returns the channel that was asked for.
pub record FindsById (d : Deps) : Type 0 where
  pub at_id :
      (id : String) (ch : NotificationChannel) → d.get_channel id ≡ some (some ch) → ch.id ≡ id

pub data Topic : Type 0 where
  alert_fired alert_silenced alert_resolved : Topic

-- The calls that leave a trace outside the engine, in the order made.
pub data Effect : Type 0 where
  insert_alert : Alert → Effect
  update_on_escalation : String → String → String → String → String → Effect
  update_status : String → AlertStatus → ℕ → Option String → Effect
  broadcast : Topic → Alert → Effect
  on_alert_created : Alert → Effect
  on_alert_resolved : String → ℕ → Effect
  insert_delivery : String → String → Effect
  enqueue : String → NotificationChannel → Alert → Effect
