-- ===== src/Escalation/Steps.antt =====
-- Every sequence of operations of the runner, with the sends of its goroutines in any order.
use pulseboard.Common.{
  ℕ, zero, suc, String, string_eq, Option, none, some, List, [], ◌∷◌, get_elem?,
}
use pulseboard.Alert.Model.{Alert}
use pulseboard.Escalation.Model.{Acknowledgment, Send}
use pulseboard.Escalation.Store.{State, RunnerDeps}
use pulseboard.Escalation.Runner.{deliver_and_update}
use pulseboard.Escalation.Cycle.{evaluate_cycle}
use pulseboard.Escalation.Hooks.{on_alert_created, on_alert_acknowledged, on_alert_resolved}

pub data Step : Type 0 where
  cycle : ℕ → Step
  alert_created : Alert → ℕ → Step
  alert_acknowledged : String → Acknowledgment → ℕ → Step
  alert_resolved : String → ℕ → Step
  -- The goroutine at the index ends, with the error of the send or without one.
  send_done : ℕ → Option String → Step

abbrev remove_at : ℕ → List Send → List Send
remove_at i [] = []
remove_at zero (x ∷ xs) = xs
remove_at (suc i) (x ∷ xs) = x ∷ remove_at i xs

abbrev finish : RunnerDeps → Option String → Option Send → State → State
finish d error none s = s
finish d error (some x) s = deliver_and_update d error x s

unfoldable pub perform : RunnerDeps → Step → State → State
unfolding evaluate_cycle on_alert_created on_alert_acknowledged on_alert_resolved deliver_and_update
perform d (cycle now) s = evaluate_cycle d now s
perform d (alert_created a now) s = (on_alert_created d a now s).0
perform d (alert_acknowledged id ack now) s = (on_alert_acknowledged d id ack now s).0
perform d (alert_resolved id now) s = (on_alert_resolved d id now s).0
perform d (send_done i error) s =
    finish d error (get_elem? s.sends i) (record s { sends = remove_at i s.sends })

unfoldable pub perform_all : List (RunnerDeps × Step) → State → State
unfolding perform
perform_all [] s = s
perform_all ((d, step) ∷ steps) s = perform_all steps (perform d step s)
