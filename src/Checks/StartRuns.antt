-- ===== src/Checks/StartRuns.antt =====
-- The creation of an alert at an office whose ids are fresh: each is longer than all in use.
use pulseboard.Common.{
  ℕ, zero, suc, ◌+◌, ◌<◌, String, string_eq, false, ◌&&◌, List, [], ◌∷◌, ◌≡◌, refl, ap, arith, ◌==◌,
  ==→≡, if◌then◌else◌, Bool-cases, inl, inr, contains, eqb,
}
use pulseboard.Escalation.Store.{rows, RunnerDeps}
use pulseboard.Escalation.Hooks.{on_alert_created}
use pulseboard.Escalation.Starts.{StartsRuns, open_runs_for, taken, on_alert_created-open_runs_for}
use pulseboard.Checks.EscalationRuns.{outage, pages, office, nothing}

abbrev chars : String → ℕ
chars String.[] = 0
chars (String.◌∷◌ c rest) = let n = chars rest in suc n

abbrev letters : ℕ → String
letters zero = ""
letters (suc n) = String.◌∷◌ "x" (letters n)

abbrev total : List String → ℕ
total [] = 0
total (x ∷ xs) = chars x + total xs

abbrev fresh_id : List String → String
fresh_id used = letters (suc (total used))

chars-letters : (n : ℕ) → chars (letters n) ≡ n
chars-letters zero = refl
chars-letters (suc n) = ground (arith, chars-letters n)

longer-absent : (used : List String) (w : String) → total used < chars w → contains used w ≡ false
longer-absent [] w h = refl
longer-absent (x ∷ xs) w h = elim (Bool-cases (x == w)) [
  | inl t ↦ absurd (ground (arith, h, ap (λ s. chars s) (==→≡ x w t)))
  | inr f ↦ ground (arith, longer-absent xs w, h)
]

abbrev desk : RunnerDeps
desk = record office { new_id = fresh_id }

desk-StartsRuns : StartsRuns desk
desk-StartsRuns = record {
  fresh =
      λ used. longer-absent used (fresh_id used) (omega (arith, chars-letters (suc (total used))));
  inserts = λ r. refl;
}

on_alert_created-open_runs_for_example :
    open_runs_for "p1" "a1" (rows (on_alert_created desk outage 100 nothing).0.runs) ≡ (
      if outage.id == "a1"
        && (eqb (open_runs_for "p1" "a1" (rows nothing.runs)) 0
            && taken desk outage "p1" (pages ∷ []))
      then 1
      else open_runs_for "p1" "a1" (rows nothing.runs))
on_alert_created-open_runs_for_example =
    on_alert_created-open_runs_for desk outage 100 (pages ∷ []) nothing "p1" "a1" desk-StartsRuns
      refl refl refl refl
