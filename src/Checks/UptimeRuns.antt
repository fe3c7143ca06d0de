-- ===== src/Checks/UptimeRuns.antt =====
-- A container that restarts an hour before the end of its day.
use native.Mathlib.Nat.{div-mul-le_self, lt-div-mul-add}
use pulseboard.Common.{
  ℕ, zero, suc, ◌+◌, ◌*◌, ◌/◌, ◌≤◌, ◌<◌, String, false, none, some, List, [], ◌∷◌, ◌≡◌, refl, arith,
}
use pulseboard.Container.Uptime.{
  StateTransition, hour, day, state_running, up_seconds, compute_uptime, calculate, calculate_day,
  calculate_window, only_hours24,
}
use pulseboard.Container.Uptime.Seconds.{count_from, up_at, IsTruncated, compute_uptime-count_from}
use pulseboard.Common.Assoc.{lookup}

abbrev exact : ℕ → ℕ → ℕ
exact up zero = 0
exact up (suc total) = 10000 * up / suc total

exact-IsTruncated : IsTruncated exact
exact-IsTruncated = record { not_above = not_above; not_far_below = not_far_below }
  where
    not_above : (up total : ℕ) → 0 < total → exact up total * total ≤ 10000 * up
    not_above up zero h = omega arith
    not_above up (suc total) h = div-mul-le_self (10000 * up) (suc total)

    not_far_below : (up total : ℕ) → 0 < total → 10000 * up < (exact up total + 2) * total
    not_far_below up zero h = omega (arith, h)
    not_far_below up (suc total) h =
        let next : 10000 * up < exact up (suc total) * suc total + suc total =
          lt-div-mul-add (omega arith) in
        grind (arith, next)

abbrev to_state : String → ℕ → StateTransition
to_state state at = record { new_state = state; new_health = none; timestamp = at }

abbrev restart : List StateTransition
restart = to_state "exited" (100000 + 23 * hour) ∷ to_state state_running (100010 + 23 * hour) ∷ []

-- It ran all day but for ten seconds.
only_the_last_hour : compute_uptime exact restart 100000 (100000 + day) ≡ 415
unfolding compute_uptime up_seconds
only_the_last_hour = refl

-- Without a transition, whatever its state.
all_day :
    (calculate exact (λ id from to. some []) 200000 "c" false []).1 ≡ some (only_hours24 10000)
unfolding calculate calculate_day calculate_window compute_uptime lookup
all_day = refl

-- Ten seconds, up in the last four.
compute_uptime-count_from_example :
    let up = count_from (up_at false (to_state state_running 1006 ∷ [])) 1000 10 in
    (compute_uptime exact (to_state state_running 1006 ∷ []) 1000 1010 * 10 ≤ 10000 * up)
    × (10000 * up < (compute_uptime exact (to_state state_running 1006 ∷ []) 1000 1010 + 2) * 10)
compute_uptime-count_from_example =
    compute_uptime-count_from exact (to_state state_running 1006) [] 1000 1010 exact-IsTruncated
      refl (omega arith)
