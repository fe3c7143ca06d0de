-- ===== src/Heartbeat/Pings/Parts.antt =====
-- What the ping handlers of internal/heartbeat/service.go share: the rows they write and the
-- executions they close.
use pulseboard.Common.{
  ℕ, zero, suc, ◌-◌, string_eq, Bool, true, false, ◌&&◌, ◌||◌, Option, none, some, List, [], ◌∷◌,
  if◌then◌else◌,
}
use pulseboard.Heartbeat.Model.{
  HeartbeatStatus, ExecutionOutcome, is_started, same_status, Heartbeat, HeartbeatPing,
  HeartbeatExecution, Monitor, max_payload_bytes, in_seconds, get_current_execution,
  update_execution, Faults, Failure, Notice, status_changed,
}

pub data Reply : Type 0 where
  ok : Heartbeat → Reply
  refused : Failure → Reply

pub record Outcome : Type 0 where
  pub monitor : Monitor
  pub notices : List Notice
  pub reply : Reply

abbrev pub take : ℕ → List ℕ → List ℕ
take zero l = []
take (suc n) [] = []
take (suc n) (c ∷ l) = c ∷ take n l

-- A community licence stores no payload; a longer one is cut.
unfoldable pub filter_payload : Bool → Option (List ℕ) → Option (List ℕ)
filter_payload can_store none = none
filter_payload can_store (some p) = if can_store then some (take max_payload_bytes p) else none

abbrev pub record_ping : Faults → HeartbeatPing → Monitor → Monitor
record_ping f ping m = if f.insert_ping then m else record m { pings = ping ∷ m.pings }

abbrev pub add_execution : Faults → HeartbeatExecution → Monitor → Monitor
add_execution f x m = if f.insert_execution then m else record m { executions = x ∷ m.executions }

-- GetCurrentExecution, then UpdateExecution of what it found.
abbrev pub close_execution : Faults → (HeartbeatExecution → HeartbeatExecution) → Monitor → Monitor
close_execution f change m =
    if f.get_execution || f.update_execution
    then m
    else record m { executions = update_execution change m.executions }

abbrev pub finished :
    ℕ
    → Option ℕ
    → Option ℕ
    → ExecutionOutcome
    → Option (List ℕ)
    → HeartbeatExecution
    → HeartbeatExecution
finished now duration code outcome payload x = record x {
  completed_at = some (in_seconds now);
  duration_ms = duration;
  code = code;
  outcome = outcome;
  payload = payload;
}

-- An execution record of a job that sends no start ping.
abbrev pub untracked :
    ℕ → Option ℕ → Option ℕ → ExecutionOutcome → Option (List ℕ) → HeartbeatExecution
untracked now duration code outcome payload = record {
  started_at = none;
  completed_at = some (in_seconds now);
  duration_ms = duration;
  code = code;
  outcome = outcome;
  payload = payload;
}

abbrev pub changed_notice : HeartbeatStatus → HeartbeatStatus → List Notice
changed_notice old new = if same_status new old then [] else status_changed old new ∷ []

abbrev pub is_some : Option ℕ → Bool
is_some none = false
is_some (some t) = true

abbrev pub elapsed : ℕ → Option ℕ → Option ℕ
elapsed now none = none
elapsed now (some t) = some (now - t)

-- `previousStatus == StatusStarted && h.CurrentRunStartedAt != nil`
abbrev pub completes : Heartbeat → Bool
completes h = is_started h.status && is_some h.current_run_started_at

-- The execution in progress is closed, and where there is none a record is added. An error of
-- GetCurrentExecution counts as none.
abbrev pub end_execution :
    Faults → ℕ → Option ℕ → ℕ → ExecutionOutcome → Option (List ℕ) → Monitor → Monitor
end_execution f now duration c outcome payload m =
    elim (if f.get_execution then none else get_current_execution m.executions) [
      | none ↦ add_execution f (untracked now duration (some c) outcome payload) m
      | some x ↦ if f.update_execution then m else record m {
        executions = update_execution (finished now duration (some c) outcome payload) m.executions;
      }
    ]
