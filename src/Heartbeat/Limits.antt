-- ===== src/Heartbeat/Limits.antt =====
-- The limits of a heartbeat's settings: validateCreateInput and UpdateHeartbeat of
-- internal/heartbeat/service.go. A name is its bytes, and Go's `int` is an integer.
use pulseboard.Common.{
  ℕ, ◌≤◌, Bool, false, ◌||◌, Option, none, some, List, ◌≡◌, ◌↔◌, arith, eqb, ltb, length,
  if◌then◌else◌,
}
use pulseboard.Common.Int.{ℤ, pos, ltb_ℤ, ◌≤ℤ◌}

abbrev pub min_interval_seconds : ℤ
min_interval_seconds = pos 60

abbrev pub max_interval_seconds : ℤ
max_interval_seconds = pos 604800

abbrev pub max_name_length : ℕ
max_name_length = 255

pub record CreateHeartbeatInput : Type 0 where
  pub name : List ℕ
  pub interval_seconds : ℤ
  pub grace_seconds : ℤ

pub record UpdateHeartbeatInput : Type 0 where
  pub name : Option (List ℕ)
  pub interval_seconds : Option ℤ
  pub grace_seconds : Option ℤ

-- Which test refused the input; or the store did.
pub data InputError : Type 0 where
  bad_name bad_interval bad_grace not_stored : InputError

abbrev pub name_out : List ℕ → Bool
name_out name = eqb (length name) 0 || ltb max_name_length (length name)

abbrev pub interval_out : ℤ → Bool
interval_out i = ltb_ℤ i min_interval_seconds || ltb_ℤ max_interval_seconds i

abbrev pub grace_out : ℤ → ℤ → Bool
grace_out g interval = ltb_ℤ g (pos 0) || ltb_ℤ interval g

unfoldable pub validate_create_input : CreateHeartbeatInput → Option InputError
validate_create_input input =
    if name_out input.name
    then some bad_name
    else if interval_out input.interval_seconds
    then some bad_interval
    else if grace_out input.grace_seconds input.interval_seconds
    then some bad_grace
    else none

abbrev given {ℓ} : {A : Type ℓ} → (A → Bool) → Option A → Bool
given test none = false
given test (some a) = test a

abbrev pub or_else {ℓ} : {A : Type ℓ} → Option A → A → A
or_else none old = old
or_else (some a) old = a

-- The settings of a heartbeat that exists. UpdateHeartbeat of the store writes the fields that are
-- given, or it fails.
unfoldable pub update_heartbeat :
    Bool → UpdateHeartbeatInput → CreateHeartbeatInput → CreateHeartbeatInput × Option InputError
update_heartbeat fails input h =
    if given name_out input.name
    then (h, some bad_name)
    else if given interval_out input.interval_seconds
    then (h, some bad_interval)
    else if given (λ g. grace_out g (or_else input.interval_seconds h.interval_seconds))
        input.grace_seconds
    then (h, some bad_grace)
    else (
      record {
        name = or_else input.name h.name;
        interval_seconds = or_else input.interval_seconds h.interval_seconds;
        grace_seconds = or_else input.grace_seconds h.grace_seconds;
      },
      none,
    )

-- The limits that a new heartbeat has to meet.
pub record InLimits (h : CreateHeartbeatInput) : Type 0 where
  pub name_set : 1 ≤ length h.name
  pub name_short : length h.name ≤ max_name_length
  pub interval_least : min_interval_seconds ≤ℤ h.interval_seconds
  pub interval_most : h.interval_seconds ≤ℤ max_interval_seconds
  pub grace_least : pos 0 ≤ℤ h.grace_seconds
  pub grace_most : h.grace_seconds ≤ℤ h.interval_seconds

-- Only the interval is given, and it is below the grace that stays.
abbrev pub undercuts : UpdateHeartbeatInput → CreateHeartbeatInput → Bool
undercuts input h = elim input.grace_seconds [
  | none ↦ elim input.interval_seconds [ none ↦ false | some i ↦ ltb_ℤ i h.grace_seconds ]
  | some g ↦ false
]

-- Creation accepts exactly the settings that are in the limits.
pub validate_create_input-InLimits :
    (h : CreateHeartbeatInput) → (validate_create_input h ≡ none) ↔ InLimits h
unfolding validate_create_input
validate_create_input-InLimits h = (λ e. ground arith, λ l. ground arith)

-- An accepted update of settings that are in the limits leaves them in the limits exactly if it does
-- not give an interval, and no grace, such that the interval is below the grace that stays.
pub update_heartbeat-InLimits :
    (fails : Bool) (input : UpdateHeartbeatInput) (h : CreateHeartbeatInput)
    → InLimits h
    → (update_heartbeat fails input h).1 ≡ none
    → InLimits (update_heartbeat fails input h).0 ↔ (undercuts input h ≡ false)
unfolding update_heartbeat
update_heartbeat-InLimits fails input h l e = (λ k. ground arith, λ u. ground arith)

-- An update that is refused, or that the store does not take, changes nothing.
pub update_heartbeat_refused :
    (fails : Bool) (input : UpdateHeartbeatInput) (h : CreateHeartbeatInput) {error : InputError}
    → (update_heartbeat fails input h).1 ≡ some error
    → (update_heartbeat fails input h).0 ≡ h
unfolding update_heartbeat
update_heartbeat_refused fails input h e = ground arith
