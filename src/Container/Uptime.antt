-- ===== src/Container/Uptime.antt =====
-- internal/container/uptime.go. Times are whole seconds, as the store keeps them. The arithmetic on
-- floats, float64(int((up / total) * 100.0 * 100)) / 100, is a parameter that gives hundredths of a
-- percent before the cap at 100. An answer of the store is `none` for an error.
pub mod Seconds
use pulseboard.Common.{
  ℕ, ◌+◌, ◌-◌, ◌*◌, String, string_eq, Bool, true, false, not, ◌&&◌, Option, none, some, List, [],
  ◌∷◌, ◌==◌, ltb, leb, min, max, if◌then◌else◌,
}
use pulseboard.Common.Assoc.{lookup, insert}

-- What the code reads of a StateTransition.
pub record StateTransition : Type 0 where
  pub new_state : String
  pub new_health : Option String
  pub timestamp : ℕ

abbrev pub state_running : String
state_running = "running"

abbrev pub health_unhealthy : String
health_unhealthy = "unhealthy"

abbrev pub is_unhealthy : Option String → Bool
is_unhealthy none = false
is_unhealthy (some h) = h == health_unhealthy

abbrev pub is_up : StateTransition → Bool
is_up t = t.new_state == state_running && not (is_unhealthy t.new_health)

-- The end of the span before the next transition.
abbrev pub end_of : ℕ → List StateTransition → ℕ
end_of to [] = to
end_of to (t ∷ rest) = t.timestamp

-- A span that is not positive counts nothing.
abbrev pub span : ℕ → ℕ → ℕ → ℕ → ℕ
span from to start end = min end to - max start from

-- The loop of computeUptime.
unfoldable pub up_seconds : ℕ → ℕ → List StateTransition → ℕ
up_seconds from to [] = 0
up_seconds from to (t ∷ rest) =
    (if is_up t then span from to t.timestamp (end_of to rest) else 0) + up_seconds from to rest

-- The percentage in hundredths. The cap comes before the rounding in the source, as `min` can.
unfoldable pub compute_uptime : (ℕ → ℕ → ℕ) → List StateTransition → ℕ → ℕ → ℕ
compute_uptime percent [] from to = if leb to from then 0 else 10000
compute_uptime percent (t ∷ rest) from to =
    if leb to from then 0 else min 10000 (percent (up_seconds from to (t ∷ rest)) (to - from))

abbrev pub hour : ℕ
hour = 3600

abbrev pub day : ℕ
day = 24 * hour

abbrev pub uptime_cache_ttl : ℕ
uptime_cache_ttl = 60

pub record CacheEntry : Type 0 where
  pub value : ℕ
  pub expires_at : ℕ

-- The only window that is cached is that of 24 hours: its entries by container.
abbrev pub Cache : Type 0
Cache = List (String × CacheEntry)

-- GetTransitionsInWindow of a container, from, to.
abbrev pub Transitions : Type 0
Transitions = String → ℕ → ℕ → Option (List StateTransition)

abbrev pub window_of : (ℕ → ℕ → ℕ) → ℕ → ℕ → Option (List StateTransition) → Option ℕ
window_of percent from now none = none
window_of percent from now (some transitions) = some (compute_uptime percent transitions from now)

unfoldable pub calculate_window : (ℕ → ℕ → ℕ) → Transitions → ℕ → String → ℕ → Option ℕ
calculate_window percent store now id window =
    window_of percent (now - window) now (store id (now - window) now)

abbrev pub still : ℕ → Option CacheEntry → Option ℕ
still now none = none
still now (some entry) = if ltb now entry.expires_at then some entry.value else none

abbrev pub keep : ℕ → String → Cache → Option ℕ → Cache × Option ℕ
keep now id cache none = (cache, none)
keep now id cache (some value) =
    (insert id (record { value = value; expires_at = now + uptime_cache_ttl }) cache, some value)

abbrev pub day_from : (ℕ → ℕ → ℕ) → Transitions → ℕ → String → Cache → Option ℕ → Cache × Option ℕ
day_from percent store now id cache (some value) = (cache, some value)
day_from percent store now id cache none =
    keep now id cache (calculate_window percent store now id day)

-- calculateWindow for 24 hours.
unfoldable pub calculate_day : (ℕ → ℕ → ℕ) → Transitions → ℕ → String → Cache → Cache × Option ℕ
calculate_day percent store now id cache =
    day_from percent store now id cache (still now (lookup id cache))

pub record UptimeResult : Type 0 where
  pub hours24 : Option ℕ
  pub days7 : Option ℕ
  pub days30 : Option ℕ
  pub days90 : Option ℕ

abbrev pub only_hours24 : ℕ → UptimeResult
only_hours24 h = record { hours24 = some h; days7 = none; days30 = none; days90 = none }

-- The longer windows, in their order; an error in one is the answer.
abbrev pub with_days : ℕ → Option ℕ → Option ℕ → Option ℕ → Option UptimeResult
with_days h (some d7) (some d30) (some d90) =
    some (record { hours24 = some h; days7 = some d7; days30 = some d30; days90 = some d90 })
with_days h _ _ _ = none

abbrev pub result_of :
    (ℕ → ℕ → ℕ) → Transitions → ℕ → String → Bool → Option ℕ → Option UptimeResult
result_of percent store now id pro none = none
result_of percent store now id pro (some h) =
    let window : ℕ → Option ℕ = λ d. calculate_window percent store now id (d * day) in
    if pro then with_days h (window 7) (window 30) (window 90) else some (only_hours24 h)

-- Calculate
unfoldable pub calculate :
    (ℕ → ℕ → ℕ) → Transitions → ℕ → String → Bool → Cache → Cache × Option UptimeResult
calculate percent store now id pro cache =
    let (next, h) = calculate_day percent store now id cache in
    (next, result_of percent store now id pro h)
