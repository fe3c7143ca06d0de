-- ===== src/Endpoint/History.antt =====
-- The counters and the alert state of an endpoint as functions of its stored results.
use pulseboard.Common.{
  ℕ, suc, Bool, true, false, not, ◌&&◌, ◌||◌, List, [], ◌∷◌, ◌≡◌, arith, all, leb, if◌then◌else◌,
}
use pulseboard.Endpoint.{
  is_alerting, CheckResult, Monitor, Faults, Report, evaluate_check_result, evaluate_alerts,
  process_check_result, process_all,
}

-- How many of the newest live results succeeded, or failed, one after the other.
abbrev pub streak : Bool → List CheckResult → ℕ
streak wanted [] = 0
streak wanted (r ∷ rs) =
    let rest = streak wanted rs in
    if r.replayed
    then rest
    else if r.success
    then (if wanted then suc rest else 0)
    else if wanted
    then 0
    else suc rest

-- Whether the live results leave the endpoint alerting: a streak of failures that reaches the first
-- threshold starts it, a streak of successes that reaches the second ends it.
abbrev pub alerting_after : ℕ → ℕ → List CheckResult → Bool
alerting_after failures successes [] = false
alerting_after failures successes (r ∷ rs) =
    let before = alerting_after failures successes rs in
    if r.replayed
    then before
    else if r.success
    then before && not (leb successes (streak true (r ∷ rs)))
    else before || leb failures (streak false (r ∷ rs))

-- The row says what the results say.
pub record IsCounted (m : Monitor) : Type 0 where
  pub failures : m.row.consecutive_failures ≡ streak false m.results
  pub successes : m.row.consecutive_successes ≡ streak true m.results
  pub state :
      is_alerting m.row.alert_state
      ≡ alerting_after m.row.failure_threshold m.row.recovery_threshold m.results

abbrev pub works : Faults → Bool
works f = not (f.get_endpoint || f.update || f.insert_result || f.reload || f.update_alert_state)

process_check_result-IsCounted :
    (f : Faults) (report : Report) (r : CheckResult) (m : Monitor)
    → works f ≡ true
    → IsCounted m
    → IsCounted (process_check_result f report r m).monitor
unfolding process_check_result evaluate_alerts evaluate_check_result
process_check_result-IsCounted f report r m w h = ground arith

-- After any results, live or replayed, of a store that works, the counters of an endpoint are the
-- streaks of its stored live results, and its alert state is the one that these results lead to,
-- if both held before them, as they do for an endpoint without results.
pub process_all-IsCounted :
    (steps : List (Faults × Report × CheckResult)) (m : Monitor)
    → all (λ step. works step.0) steps ≡ true
    → IsCounted m
    → IsCounted (process_all steps m).0
unfolding process_all
process_all-IsCounted [] m w h = h
process_all-IsCounted ((f, report, r) ∷ steps) m w h =
    process_all-IsCounted steps (process_check_result f report r m).monitor (ground (arith, w))
      (process_check_result-IsCounted f report r m (ground (arith, w)) h)
