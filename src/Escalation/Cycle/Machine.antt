-- ===== src/Escalation/Cycle/Machine.antt =====
-- The state machine that one run goes through, and that a cycle steps it.
use pulseboard.Common.{
  ℕ, ◌+◌, ◌-◌, String, string_eq, true, false, not, Option, none, some, List, [], ◌∷◌, ◌≡◌, refl,
  ◌∙◌, ap, ◌==◌, ==→≡, arith, if◌then◌else◌, Bool-cases, inl, inr, get_elem?,
}
use pulseboard.Common.Int.{ℤ, pos}
use pulseboard.Common.Assoc.{lookup, lookup-insert}
use pulseboard.Alert.Model.{Alert, NotificationChannel}
use pulseboard.Escalation.Model.{
  Level, Policy, run_active, paused_by_maintenance, stopped_by_resolution,
  stopped_by_policy_deletion, exhausted, is_paused, is_open, Run, Delivery,
}
use pulseboard.Escalation.Store.{
  State, RunnerDeps, write_run, terminated, progressed, paused, resumed, is_due, select_orphans,
}
use pulseboard.Escalation.Runner.{
  on_channel, dispatch_to_channel, dispatch_all, announce_exhausted, on_level, on_snapshot,
  on_alert, is_active_status, next_level, next_time,
}
use pulseboard.Escalation.Cycle.{abandon_delivery, retry_for, recover, recover_all, recover_orphans}

-- What a cycle sees of the world of a run.
pub data Sight : Type 0 where
  -- The alert cannot be read.
  unreachable : Sight
  -- The alert was deleted, or is no longer active.
  over : Sight
  in_maintenance : Sight
  -- The alert is active, with the levels of the snapshot if it can be read.
  firing : Option (List Level) → Sight

abbrev levels_of : Option Policy → Option (List Level)
levels_of none = none
levels_of (some p) = some p.levels

abbrev sight_of : RunnerDeps → Run → Option (Option Alert) → Sight
sight_of d run none = unreachable
sight_of d run (some none) = over
sight_of d run (some (some a)) =
    if not (is_active_status a.status)
    then over
    else if d.is_suppressed a.source a.entity_type a.entity_id
    then in_maintenance
    else firing (levels_of (d.unmarshal run.policy_snapshot_json))

abbrev pub sight : RunnerDeps → Run → Sight
sight d run = sight_of d run (d.get_alert run.alert_id)

-- Executes the next level, or ends the run where there is none.
abbrev pub level_step : ℕ → List Level → Option Level → Run → Run
level_step now levels none run = record run {
  status = exhausted;
  ended_at = some now;
  next_action_at = none;
}
level_step now levels (some level) run = record run {
  status = run_active;
  last_executed_level_index = some (next_level run);
  next_action_at = some (next_time now levels (next_level run));
}

-- One step of an open run at the time `now`.
abbrev pub advance : Sight → ℕ → Run → Run
advance unreachable now run = run
advance over now run = record run {
  status = stopped_by_resolution;
  ended_at = some now;
  next_action_at = none;
}
advance in_maintenance now run = record run {
  status = paused_by_maintenance;
  next_action_at = some (now + 60);
}
advance (firing snapshot) now run =
    if is_paused run.status
    then record run { status = run_active; next_action_at = some now }
    else elim snapshot [
      | none ↦ record run {
        status = stopped_by_policy_deletion;
        ended_at = some now;
        next_action_at = none;
      }
      | some levels ↦ level_step now levels (get_elem? levels (next_level run)) run
    ]

-- A write that fails leaves the run where it was.
abbrev pub stepped : RunnerDeps → ℕ → Run → Run
stepped d now run = if d.update_run_fails run.id then run else advance (sight d run) now run

abbrev pub after_cycle : RunnerDeps → ℕ → Run → Run
after_cycle d now run = if is_due now run then stepped d now run else run

abbrev pub on_run : (Run → Run) → Option Run → Option Run
on_run change none = none
on_run change (some run) = some (change run)

-- Deliveries do not touch the runs.
on_channel-runs :
    (d : RunnerDeps) (run_id : String) (level : ℤ) (ch_id : String) (a : Alert) (now : ℕ)
    (answer : Option (Option NotificationChannel)) (s : State)
    → (on_channel d run_id level ch_id a now answer s).runs ≡ s.runs
on_channel-runs d run_id level ch_id a now none s = refl
on_channel-runs d run_id level ch_id a now (some none) s = refl
on_channel-runs d run_id level ch_id a now (some (some ch)) s = ground arith

pub dispatch_all-runs :
    (d : RunnerDeps) (run_id : String) (level : ℤ) (ids : List String) (a : Alert) (s : State)
    → (dispatch_all d run_id level ids a s).runs ≡ s.runs
unfolding dispatch_all
dispatch_all-runs d run_id level [] a s = refl
dispatch_all-runs d run_id level (ch_id ∷ ids) a s =
    dispatch_all-runs d run_id level ids a (dispatch_to_channel d run_id level ch_id a d.clock s)
    ∙ on_channel-runs d run_id level ch_id a d.clock (d.get_channel ch_id) s

pub announce_exhausted-runs :
    (d : RunnerDeps) (run : Run) (a : Alert) (levels : List Level) (last : Option ℕ) (s : State)
    → (announce_exhausted d run a levels last s).runs ≡ s.runs
announce_exhausted-runs d run a levels none s = refl
announce_exhausted-runs d run a levels (some i) s = grind (arith, dispatch_all-runs)

retry_for-runs :
    (d : RunnerDeps) (row : Delivery) (answer : Option (Option Alert)) (s : State)
    → (retry_for d row answer s).runs ≡ s.runs
unfolding abandon_delivery
retry_for-runs d row none s = refl
retry_for-runs d row (some none) s = refl
retry_for-runs d row (some (some a)) s = ground arith

recover-runs :
    (d : RunnerDeps) (row : Delivery) (o : Option Run) (s : State)
    → (recover d row o s).runs ≡ s.runs
unfolding abandon_delivery
recover-runs d row none s = refl
recover-runs d row (some run) s = ground (arith, retry_for-runs d row (d.get_alert run.alert_id) s)

abbrev pub owner : RunnerDeps → Delivery → State → Option Run
owner d row s = if d.select_run_fails row.run_id then none else lookup row.run_id s.runs

recover_all-runs :
    (d : RunnerDeps) (orphans : List Delivery) (s : State) → (recover_all d orphans s).runs ≡ s.runs
unfolding recover_all
recover_all-runs d [] s = refl
recover_all-runs d (row ∷ orphans) s =
    recover_all-runs d orphans (recover d row (owner d row s) s)
    ∙ recover-runs d row (owner d row s) s

pub recover_orphans-runs :
    (d : RunnerDeps) (now : ℕ) (s : State) → (recover_orphans d now s).runs ≡ s.runs
unfolding recover_orphans
recover_orphans-runs d now s =
    ground (arith, recover_all-runs d (select_orphans (now - d.orphan_timeout) s) s)

-- What a write leaves under an id.
pub lookup-write_run :
    (d : RunnerDeps) (id k : String) (change : Run → Run) (r : Run) (s : State)
    → lookup id s.runs ≡ some r
    → lookup k (write_run d id change s).runs
      ≡ (if id == k then some (if d.update_run_fails id then r else change r) else lookup k s.runs)
unfolding write_run
lookup-write_run d id k change r s h = elim (Bool-cases (id == k)) [
  | inl t ↦ ground (arith, lookup-insert id k (change r) s.runs, h, ==→≡ id k t)
  | inr f ↦ ground (arith, lookup-insert id k (change r) s.runs, h)
]

module _ (d : RunnerDeps) (now : ℕ) (run : Run) (k : String) (s : State) where
  abbrev Steps : State → Sight → Type 0
  Steps after seen = lookup k after.runs ≡ (
      if run.id == k
      then some (if d.update_run_fails run.id then run else advance seen now run)
      else lookup k s.runs)

  on_level-lookup :
      (a : Alert) (levels : List Level) (level : Option Level)
      → lookup run.id s.runs ≡ some run
      → lookup k (on_level d now run a levels level s).runs ≡ (
          if run.id == k
          then some (if d.update_run_fails run.id then run else level_step now levels level run)
          else lookup k s.runs)
  on_level-lookup a levels none h =
      lookup-write_run d run.id k (terminated exhausted now) run announced
        (ap (λ m. lookup run.id m) same ∙ h)
      ∙ ap
          (λ m.
            if run.id == k
            then some (if d.update_run_fails run.id then run else terminated exhausted now run)
            else lookup k m)
          same
    where
      announced : State
      announced = announce_exhausted d run a levels run.last_executed_level_index s

      same : announced.runs ≡ s.runs
      same = announce_exhausted-runs d run a levels run.last_executed_level_index s
  on_level-lookup a levels (some l) h =
      lookup-write_run d run.id k change run dispatched (ap (λ m. lookup run.id m) same ∙ h)
      ∙ ap
          (λ m.
            if run.id == k
            then some (if d.update_run_fails run.id then run else change run)
            else lookup k m)
          same
    where
      change : Run → Run
      change = progressed (next_level run) (next_time now levels (next_level run))

      dispatched : State
      dispatched = dispatch_all d run.id (pos (next_level run)) l.channel_ids a s

      same : dispatched.runs ≡ s.runs
      same = dispatch_all-runs d run.id (pos (next_level run)) l.channel_ids a s

  on_snapshot-lookup :
      (a : Alert) (p : Option Policy)
      → lookup run.id s.runs ≡ some run
      → is_open run.status ≡ true
      → is_paused run.status ≡ false
      → Steps (on_snapshot d now run a p s) (firing (levels_of p))
  on_snapshot-lookup a none h o n =
      ground
        (arith, lookup-write_run d run.id k (terminated stopped_by_policy_deletion now) run s h)
  on_snapshot-lookup a (some p) h o n =
      rw n (on_level-lookup a p.levels (get_elem? p.levels (next_level run)) h)

  pub on_alert-lookup :
      (answer : Option (Option Alert))
      → lookup run.id s.runs ≡ some run
      → is_open run.status ≡ true
      → Steps (on_alert d now run answer s) (sight_of d run answer)
  on_alert-lookup none h o = elim (Bool-cases (run.id == k)) [
    | inl t ↦ ground (arith, h, ==→≡ run.id k t)
    | inr f ↦ ground arith
  ]
  on_alert-lookup (some none) h o =
      ground (arith, lookup-write_run d run.id k (terminated stopped_by_resolution now) run s h)
  on_alert-lookup (some (some a)) h o = ground (
    arith,
    lookup-write_run d run.id k (terminated stopped_by_resolution now) run s h,
    lookup-write_run d run.id k (paused (now + 60)) run s h,
    lookup-write_run d run.id k (resumed now) run s h,
    on_snapshot-lookup a (d.unmarshal run.policy_snapshot_json) h o,
  )
