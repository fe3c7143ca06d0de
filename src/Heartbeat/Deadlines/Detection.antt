-- ===== src/Heartbeat/Deadlines/Detection.antt =====
-- When a missed deadline is reported, and when a ping ends an alert.
use pulseboard.Common.{
  ℕ, ◌+◌, ◌*◌, ◌/◌, Bool, true, false, not, ◌&&◌, eqb, leb, Option, List, [], ◌∷◌, ◌≡◌, arith, ltb,
  if◌then◌else◌,
}
use pulseboard.Common.Int.{pos}
use pulseboard.Heartbeat.Model.{
  up, down, normal, alerting, is_alerting, Monitor, Faults, Notice, alert_callback,
  recovery_callback,
}
use pulseboard.Heartbeat.Pings.{process_ping, process_exit_code_ping}
use pulseboard.Heartbeat.Deadlines.{mark_overdue, check_deadline}
use pulseboard.Heartbeat.Deadlines.Soundness.{IsSound}

abbrev is_alert_callback : Notice → Bool
is_alert_callback alert_callback = true
is_alert_callback _ = false

abbrev is_recovery_callback : Notice → Bool
is_recovery_callback recovery_callback = true
is_recovery_callback _ = false

abbrev pub raises_alert : List Notice → Bool
raises_alert [] = false
raises_alert (n ∷ ns) = if is_alert_callback n then true else raises_alert ns

abbrev pub announces_recovery : List Notice → Bool
announces_recovery [] = false
announces_recovery (n ∷ ns) = if is_recovery_callback n then true else announces_recovery ns

-- An active heartbeat that was pinged at `t`, with no failure of the store, is found down by the
-- next check, made at `now`, exactly if the whole second of `now` lies beyond that of the deadline,
-- which is `t` and the interval and the grace; if it is found down it alerts, its streak of failures
-- is one, and the alert callback is called; if not, the check changes nothing.
pub check_deadline-process_ping :
    (f g : Faults) (t now : ℕ) (p : Option (List ℕ)) (m : Monitor)
    → m.row.active ≡ true
    → f.update_state ≡ false
    → g.update_state ≡ false
    → (let after = (process_ping f t p m).monitor in
        let (found, notices) = check_deadline g now after in
        let late =
          ltb ((t + (m.row.interval_seconds + m.row.grace_seconds) * 1000) / 1000) (now / 1000) in
        (raises_alert notices ≡ late)
        × (found.row.status ≡ (if late then down else up))
        × (found.row.consecutive_failures ≡ (if late then 1 else 0))
        × (found.row.alert_state ≡ (if late then alerting else after.row.alert_state))
        × (found ≡ (if late then (mark_overdue g now after).0 else after)))
unfolding process_ping check_deadline
check_deadline-process_ping f g t now p m a u v = ground arith

-- A ping that a sound heartbeat receives calls the recovery callback exactly if the heartbeat was
-- alerting, raises no alert, and leaves no alert in the row.
pub process_ping-recovery :
    (f : Faults) (now : ℕ) (p : Option (List ℕ)) (m : Monitor)
    → IsSound m.row
    → f.update_state ≡ false
    → (announces_recovery (process_ping f now p m).notices ≡ is_alerting m.row.alert_state)
      × (raises_alert (process_ping f now p m).notices ≡ false)
      × ((process_ping f now p m).monitor.row.alert_state ≡ normal)
unfolding process_ping
process_ping-recovery f now p m h u = ground arith

-- An exit code of a sound heartbeat is accepted up to 255. An accepted one raises an alert exactly
-- if it is not 0, calls the recovery callback exactly if it is 0 and the heartbeat was alerting, and
-- leaves the row alerting exactly if it is not 0; one that is not accepted calls nothing and leaves
-- the alert state as it was.
pub process_exit_code_ping-alert :
    (f : Faults) (now c : ℕ) (p : Option (List ℕ)) (m : Monitor)
    → IsSound m.row
    → f.update_state ≡ false
    → (let out = process_exit_code_ping f now (pos c) p m in
        let accepted = leb c 255 in
        (raises_alert out.notices ≡ (accepted && not (eqb c 0)))
        × (announces_recovery out.notices
            ≡ (accepted && (eqb c 0 && is_alerting m.row.alert_state)))
        × (is_alerting out.monitor.row.alert_state
            ≡ (if accepted then not (eqb c 0) else is_alerting m.row.alert_state)))
unfolding process_exit_code_ping
process_exit_code_ping-alert f now c p m h u = ground arith
