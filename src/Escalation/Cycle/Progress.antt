-- ===== src/Escalation/Cycle/Progress.antt =====
-- A run whose alert keeps firing climbs its levels and ends.
use pulseboard.Common.{
  ℕ, zero, suc, ◌+◌, ◌<◌, ◌≤◌, String, string_eq, true, false, Option, none, some, List, [], ◌∷◌,
  ◌≡◌, refl, sym, ◌∙◌, ap, arith, Option-cases, inl, inr, All, get_elem?, length,
}
use pulseboard.Common.Assoc.{lookup}
use pulseboard.Alert.Model.{Alert}
use pulseboard.Escalation.Model.{Level, Policy, RunStatus, run_active, exhausted, is_open, Run}
use pulseboard.Escalation.Store.{State, RunnerDeps}
use pulseboard.Escalation.Runner.{is_active_status, next_level, next_time}
use pulseboard.Escalation.Cycle.{evaluate_cycle}
use pulseboard.Escalation.Cycle.Selection.{IsTable}
use pulseboard.Escalation.Cycle.Machine.{firing, sight, level_step, after_cycle, on_run}
use pulseboard.Escalation.Cycle.Refinement.{lookup-evaluate_cycle}
use pulseboard.Escalation.Cycle.Table.{evaluate_cycle-IsTable}

-- The cycles at the times `ts`, of the table and of one run.
unfoldable pub cycles : RunnerDeps → List ℕ → State → State
unfolding evaluate_cycle
cycles d [] s = s
cycles d (t ∷ ts) s = cycles d ts (evaluate_cycle d t s)

abbrev pub run_cycles : RunnerDeps → List ℕ → Run → Run
run_cycles d [] run = run
run_cycles d (t ∷ ts) run = run_cycles d ts (after_cycle d t run)

on_run-on_run : (f g : Run → Run) (o : Option Run) → on_run f (on_run g o) ≡ on_run (λ r. f (g r)) o
on_run-on_run f g none = refl
on_run-on_run f g (some r) = refl

on_run-id : (o : Option Run) → on_run (λ r. r) o ≡ o
on_run-id none = refl
on_run-id (some r) = refl

lookup-cycles :
    (d : RunnerDeps) (ts : List ℕ) (id : String) (s : State)
    → IsTable s
    → d.select_due_fails ≡ false
    → lookup id (cycles d ts s).runs ≡ on_run (run_cycles d ts) (lookup id s.runs)
unfolding cycles
lookup-cycles d [] id s t e = sym (on_run-id (lookup id s.runs))
lookup-cycles d (now ∷ ts) id s t e =
    lookup-cycles d ts id (evaluate_cycle d now s) (evaluate_cycle-IsTable d now s t) e
    ∙ ap (on_run (run_cycles d ts)) (lookup-evaluate_cycle d now id s t e)
    ∙ on_run-on_run (run_cycles d ts) (after_cycle d now) (lookup id s.runs)

-- No delay is longer than `most`.
abbrev pub Within : ℕ → List Level → Type 0
Within most levels = All (λ l. l.delay_seconds ≤ most) levels

-- The first time is not before `from`, and each later one leaves room for the longest delay.
abbrev pub Spaced : ℕ → ℕ → List ℕ → Type 0
Spaced most from [] = Unit
Spaced most from (t ∷ ts) = (from ≤ t) × Spaced most (t + most) ts

-- The alert of the run is active and not in maintenance, the snapshot can be read, and the row of
-- the run can be written.
pub record IsFiring (d : RunnerDeps) (run : Run) (a : Alert) (p : Policy) : Type 0 where
  pub alert_found : d.get_alert run.alert_id ≡ some (some a)
  pub alert_active : is_active_status a.status ≡ true
  pub unsuppressed : d.is_suppressed a.source a.entity_type a.entity_id ≡ false
  pub snapshot_read : d.unmarshal run.policy_snapshot_json ≡ some p
  pub writable : d.update_run_fails run.id ≡ false

closed_stays :
    (d : RunnerDeps) (ts : List ℕ) (run : Run)
    → is_open run.status ≡ false
    → run_cycles d ts run ≡ run
closed_stays d [] run h = refl
closed_stays d (t ∷ ts) run h = ap (run_cycles d ts) (ground (arith, h)) ∙ closed_stays d ts run h

Within-get_elem? :
    (most : ℕ) (levels : List Level) (i : ℕ) (l : Level)
    → Within most levels
    → get_elem? levels i ≡ some l
    → l.delay_seconds ≤ most
Within-get_elem? most [] i l w e = ground arith
Within-get_elem? most (k ∷ ls) zero l (h, w) e = ground arith
Within-get_elem? most (k ∷ ls) (suc i) l (h, w) e = Within-get_elem? most ls i l w e

get_elem?-length :
    (levels : List Level) (i : ℕ) (l : Level) → get_elem? levels i ≡ some l → i < length levels
get_elem?-length [] i l e = ground arith
get_elem?-length (k ∷ ls) zero l e = omega arith
get_elem?-length (k ∷ ls) (suc i) l e = omega (arith, get_elem?-length ls i l e)

Spaced-weaken :
    (most from from' : ℕ) (ts : List ℕ) → from' ≤ from → Spaced most from ts → Spaced most from' ts
Spaced-weaken most from from' [] l h = h
Spaced-weaken most from from' (t ∷ ts) l (h, r) = (omega arith, r)

next_time-Within :
    (most now : ℕ) (levels : List Level) (i : ℕ)
    → Within most levels
    → next_time now levels i ≤ now + most
next_time-Within most now levels i w = elim (Option-cases (get_elem? levels (suc i))) [
  | inl e ↦ ground (arith, e)
  | inr (l, e) ↦ ground (arith, e, Within-get_elem? most levels (suc i) l w e)
]

module _ (d : RunnerDeps) (a : Alert) (p : Policy) where
  sight-firing : (run : Run) → IsFiring d run a p → sight d run ≡ firing (some p.levels)
  sight-firing run f =
      ground (arith, f.alert_found, f.alert_active, f.unsuppressed, f.snapshot_read)

  after_cycle-firing :
      (now t : ℕ) (run : Run)
      → IsFiring d run a p
      → run.status ≡ run_active
      → run.next_action_at ≡ some t
      → t ≤ now
      → after_cycle d now run ≡ level_step now p.levels (get_elem? p.levels (next_level run)) run
  after_cycle-firing now t run f o e l = ground (arith, sight-firing run f, f.writable, o, e)

  level_step-IsFiring :
      (now : ℕ) (level : Option Level) (run : Run)
      → IsFiring d run a p
      → IsFiring d (level_step now p.levels level run) a p
  level_step-IsFiring now none run f = record {
    alert_found = f.alert_found;
    alert_active = f.alert_active;
    unsuppressed = f.unsuppressed;
    snapshot_read = f.snapshot_read;
    writable = f.writable;
  }
  level_step-IsFiring now (some l) run f = record {
    alert_found = f.alert_found;
    alert_active = f.alert_active;
    unsuppressed = f.unsuppressed;
    snapshot_read = f.snapshot_read;
    writable = f.writable;
  }

  module _ (most : ℕ) (w : Within most p.levels) where
    climb :
        (ts : List ℕ) (t : ℕ) (run : Run)
        → IsFiring d run a p
        → run.status ≡ run_active
        → run.next_action_at ≡ some t
        → Spaced most t ts
        → next_level run ≤ length p.levels
        → length p.levels < next_level run + length ts
        → (run_cycles d ts run).status ≡ exhausted
    climb [] t run f o e sp l n = absurd (omega (arith, l, n))
    climb (now ∷ ts) t run f o e (le, sp) l n =
        elim (Option-cases (get_elem? p.levels (next_level run))) [
          | inl z ↦
              ap (λ r. (run_cycles d ts r).status)
                (step ∙ ap (λ lv. level_step now p.levels lv run) z)
              ∙ ap (λ r. r.status) (closed_stays d ts (level_step now p.levels none run) refl)
          | inr (lv, z) ↦
              ap (λ r. (run_cycles d ts r).status)
                (step ∙ ap (λ lv'. level_step now p.levels lv' run) z)
              ∙ climb ts (next_time now p.levels (next_level run))
                  (level_step now p.levels (some lv) run) (level_step-IsFiring now (some lv) run f)
                  refl refl
                  (Spaced-weaken most (now + most) (next_time now p.levels (next_level run)) ts
                    (next_time-Within most now p.levels (next_level run) w) sp)
                  (get_elem?-length p.levels (next_level run) lv z) (omega (arith, n))
        ]
      where
        step :
            after_cycle d now run
            ≡ level_step now p.levels (get_elem? p.levels (next_level run)) run
        step = after_cycle-firing now t run f o e le

abbrev pub status_of : Option Run → Option RunStatus
status_of none = none
status_of (some r) = some r.status

-- A run that has executed no level, whose alert stays active and out of maintenance and whose
-- snapshot and row the store serves, is exhausted after more cycles than it has levels, if the first
-- is not before its next action and each later one leaves room for the longest delay.
pub cycles-exhausted :
    (d : RunnerDeps) (a : Alert) (p : Policy) (most from : ℕ) (ts : List ℕ) (run : Run) (s : State)
    → IsTable s
    → d.select_due_fails ≡ false
    → lookup run.id s.runs ≡ some run
    → IsFiring d run a p
    → run.status ≡ run_active
    → run.last_executed_level_index ≡ none
    → run.next_action_at ≡ some from
    → Within most p.levels
    → Spaced most from ts
    → length p.levels < length ts
    → status_of (lookup run.id (cycles d ts s).runs) ≡ some exhausted
cycles-exhausted d a p most from ts run s t e h f o n q w sp m =
    ap status_of (lookup-cycles d ts run.id s t e ∙ ap (on_run (run_cycles d ts)) h)
    ∙ ap some (climb d a p most w ts from run f o q sp (ground (arith, n)) (ground (arith, n, m)))
