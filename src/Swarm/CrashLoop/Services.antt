-- ===== src/Swarm/CrashLoop/Services.antt =====
-- The detector over all its services: each is treated as if it were alone.
use pulseboard.Common.{
  ℕ, ◌-◌, String, string_eq, Bool, not, ◌&&◌, ◌||◌, List, [], ◌∷◌, ◌++◌, ◌==◌, leb, if◌then◌else◌,
  select,
}
use pulseboard.Alert.Model.{Event}
use pulseboard.Swarm.CrashLoop.{
  crash_loop_recovery_time, ServiceFailureState, count, fail, settle, Detector, record_failure,
  check_recoveries,
}
use pulseboard.Swarm.CrashLoop.Reports.{names}
use pulseboard.Swarm.CrashLoop.Window.{Step, fails, checked}

-- What can happen to the detector.
pub data Op : Type 0 where
  failure : String → String → ℕ → Op
  look : ℕ → Op

unfoldable pub run_detector : (String → ℕ → String) → List Op → Detector → Detector
unfolding record_failure check_recoveries
run_detector text [] d = d
run_detector text (failure id name now ∷ ops) d =
    run_detector text ops (record_failure text now id name d).0
run_detector text (look now ∷ ops) d = run_detector text ops (check_recoveries text now d).0

-- The steps of one service.
abbrev pub own : String → List Op → List Step
own id [] = []
own id (failure i name now ∷ ops) =
    let rest = own id ops in if i == id then fails name now ∷ rest else rest
own id (look now ∷ ops) = checked now ∷ own id ops

abbrev state_after : List Step → ServiceFailureState → ServiceFailureState
state_after [] st = st
state_after (fails name now ∷ steps) st = state_after steps (fail now st).0
state_after (checked now ∷ steps) st = state_after steps (settle now st).0

-- Whether a service that keeps all its failures crashes in a loop after some steps.
abbrev pub looping_after : List ℕ → Bool → ℕ → List Step → Bool
looping_after all looping last [] = looping
looping_after all looping last (fails name now ∷ steps) =
    looping_after (all ++ now ∷ []) (looping || leb 3 (count now (all ++ now ∷ []))) now steps
looping_after all looping last (checked now ∷ steps) =
    looping_after all (looping && not (leb crash_loop_recovery_time (now - last))) last steps

-- What the run reports of one service: the events of its failures, and the recoveries that name it.
unfoldable pub reported_of : (String → ℕ → String) → String → List Op → Detector → List Event
unfolding record_failure check_recoveries
reported_of text id [] d = []
reported_of text id (failure i name now ∷ ops) d =
    let (next, evts) = record_failure text now i name d in
    (if i == id then evts else []) ++ reported_of text id ops next
reported_of text id (look now ∷ ops) d =
    let (next, evts) = check_recoveries text now d in
    select (names id) evts ++ reported_of text id ops next
