-- ===== src/Escalation/Store.antt =====
-- The rows of internal/store/escalation.go, and what the runner is given (RunnerDeps of
-- internal/alert/escalation/runner.go). A write that fails leaves the rows as they were.
use pulseboard.Common.{
  ℕ, String, string_eq, Bool, true, false, ◌&&◌, ◌||◌, Option, none, some, List, [], ◌∷◌, ◌==◌, leb,
  ltb, if◌then◌else◌, select,
}
use pulseboard.Common.Assoc.{lookup, insert}
use pulseboard.Common.Int.{ℤ, int_eq}
use pulseboard.Alert.Model.{Alert, NotificationChannel}
use pulseboard.Escalation.Model.{
  Policy, RunStatus, run_active, paused_by_maintenance, is_open, is_paused, Run, Delivery, pending,
  DeliveryStatus, Acknowledgment, Send,
}

-- The two tables, runs by their id and in the order of their ids, and the goroutines that have yet
-- to send.
pub record State : Type 0 where
  pub runs : List (String × Run)
  pub deliveries : List Delivery
  pub sends : List Send

-- Answers of the other components: `none` is an error, `some none` a row that is not there. Each
-- field `…_fails` says which calls of that kind fail.
pub record RunnerDeps : Type 0 where
  pub get_alert : String → Option (Option Alert)
  pub get_channel : String → Option (Option NotificationChannel)
  -- The answer that the runner goes on with, also beside an error.
  pub is_suppressed : String → String → String → Bool
  pub active_policies : Option (List Policy)
  -- json.Marshal and json.Unmarshal of a policy
  pub marshal : Policy → Option String
  pub unmarshal : String → Option Policy
  -- uid.New, given the ids in use
  pub new_id : List String → String
  -- The messages that formatAckAlert and formatExhaustedAlert print.
  pub ack_message : Acknowledgment → Alert → String
  pub exhausted_message : Alert → ℕ → String
  -- What the clock says while deliveries are reserved and sent.
  pub clock : ℕ
  pub orphan_timeout : ℕ
  pub select_due_fails : Bool
  pub select_active_fails : Bool
  pub select_orphans_fails : Bool
  pub select_run_fails : String → Bool
  pub insert_run_fails : Run → Bool
  pub update_run_fails : String → Bool
  pub insert_delivery_fails : String → ℤ → String → Bool
  pub update_delivery_fails : String → Bool

-- UPDATE escalation_runs SET … WHERE id = ?
abbrev pub put_run : String → (Run → Run) → Option Run → State → State
put_run id change none s = s
put_run id change (some r) s = record s { runs = insert id (change r) s.runs }

unfoldable pub update_run : String → (Run → Run) → State → State
update_run id change s = put_run id change (lookup id s.runs) s

abbrev pub terminated : RunStatus → ℕ → Run → Run
terminated status now r = record r { status = status; ended_at = some now; next_action_at = none }

abbrev pub progressed : ℕ → ℕ → Run → Run
progressed level next r = record r {
  last_executed_level_index = some level;
  next_action_at = some next;
  status = run_active;
}

-- The guards of the two UPDATEs on a pause.
abbrev pub paused : ℕ → Run → Run
paused next r =
    if is_open r.status
    then record r { status = paused_by_maintenance; next_action_at = some next }
    else r

abbrev pub resumed : ℕ → Run → Run
resumed next r =
    if is_paused r.status then record r { status = run_active; next_action_at = some next } else r

unfoldable pub write_run : RunnerDeps → String → (Run → Run) → State → State
unfolding update_run
write_run d id change s = if d.update_run_fails id then s else update_run id change s

-- SelectActiveRunsByAlert
abbrev pub is_open_for : String → Run → Bool
is_open_for alert_id r = r.alert_id == alert_id && is_open r.status

abbrev pub rows : List (String × Run) → List Run
rows [] = []
rows (entry ∷ m) = entry.1 ∷ rows m

unfoldable pub select_active_runs_by_alert : String → State → List Run
select_active_runs_by_alert alert_id s = select (is_open_for alert_id) (rows s.runs)

abbrev pub at_or_before : ℕ → Option ℕ → Bool
at_or_before now none = false
at_or_before now (some t) = leb t now

abbrev pub is_due : ℕ → Run → Bool
is_due now r = is_open r.status && at_or_before now r.next_action_at

abbrev pub action_time : Run → ℕ
action_time r = elim r.next_action_at [ none ↦ 0 | some t ↦ t ]

-- ORDER BY next_action_at ASC
unfoldable pub insert_by_time : Run → List Run → List Run
insert_by_time r [] = r ∷ []
insert_by_time r (x ∷ xs) =
    let rest = insert_by_time r xs in
    if leb (action_time r) (action_time x) then r ∷ x ∷ xs else x ∷ rest

unfoldable pub sort_by_time : List Run → List Run
unfolding insert_by_time
sort_by_time [] = []
sort_by_time (r ∷ rs) = insert_by_time r (sort_by_time rs)

unfoldable pub select_due_runs : ℕ → State → List Run
unfolding sort_by_time
select_due_runs now s = sort_by_time (select (is_due now) (rows s.runs))

-- The unique index on (run_id, level_index, channel_id), in which no two nulls are equal.
abbrev pub has_key : String → ℤ → String → Delivery → Bool
has_key run_id level ch_id d = elim d.channel_id [
  | none ↦ false
  | some c ↦ d.run_id == run_id && (d.level_index == level && c == ch_id)
]

abbrev pub reserved : String → ℤ → String → List Delivery → Bool
reserved run_id level ch_id [] = false
reserved run_id level ch_id (d ∷ ds) =
    has_key run_id level ch_id d || reserved run_id level ch_id ds

-- UpdateDelivery writes the status, the error and the time.
unfoldable pub update_delivery : RunnerDeps → Delivery → List Delivery → List Delivery
update_delivery d row [] = []
update_delivery d row (x ∷ xs) =
    let rest = update_delivery d row xs in
    if d.update_delivery_fails row.id
    then x ∷ xs
    else if x.id == row.id
    then record x { status = row.status; error = row.error; sent_at = row.sent_at } ∷ rest
    else x ∷ rest

abbrev pub is_pending : DeliveryStatus → Bool
is_pending pending = true
is_pending _ = false

-- SelectOrphanPendingDeliveries, in the order of the rows
unfoldable pub select_orphans : ℕ → State → List Delivery
select_orphans cutoff s =
    select (λ d. is_pending d.status && ltb d.attempt_started_at cutoff) s.deliveries

abbrev pub delivery_ids : List Delivery → List String
delivery_ids [] = []
delivery_ids (d ∷ ds) = d.id ∷ delivery_ids ds

abbrev pub run_ids : List (String × Run) → List String
run_ids [] = []
run_ids (entry ∷ m) = entry.0 ∷ run_ids m
