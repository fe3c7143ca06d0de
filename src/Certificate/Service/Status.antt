-- ===== src/Certificate/Service/Status.antt =====
-- The status of a monitor against the evaluation of its alerts: two loops over the same thresholds.
use pulseboard.Common.{
  ℕ, Bool, true, false, Option, none, some, List, [], ◌∷◌, ◌≡◌, refl, arith, any, ltb,
  if◌then◌else◌,
}
use pulseboard.Common.Int.{ℤ, leb_ℤ}
use pulseboard.Certificate.Model.{CertStatus, valid, expiring, expired}
use pulseboard.Certificate.Thresholds.{sort_descending, last_crossed, crossed_threshold}
use pulseboard.Certificate.Service.{Clock, days_remaining, compute_status}

abbrev pub found : Option ℤ → Bool
found none = false
found (some t) = true

last_crossed-any :
    (days : ℤ) (o : Option ℤ) (ts : List ℤ)
    → (if any (λ t. leb_ℤ days t) ts then true else found o) ≡ found (last_crossed days o ts)
unfolding last_crossed
last_crossed-any days o [] = refl
last_crossed-any days o (t ∷ ts) =
    ground (arith, last_crossed-any days (some t) ts, last_crossed-any days o ts)

-- The status that a threshold, crossed or not, stands for.
abbrev pub status_at : Bool → Option ℤ → CertStatus
status_at true crossed = expired
status_at false none = valid
status_at false (some t) = expiring

found-status_at :
    (b : Bool) (o : Option ℤ)
    → (if b then expired else if found o then expiring else valid) ≡ status_at b o
found-status_at true o = refl
found-status_at false none = refl
found-status_at false (some t) = refl

-- At the same readings of the clock, the status agrees with the evaluation of the alerts: expired
-- where the certificate has run out, and otherwise expiring exactly where the evaluation takes a
-- threshold as crossed, and valid where it takes none.
pub compute_status-crossed_threshold :
    (clk : Clock) (not_after : ℕ) (ts : List ℤ)
    → compute_status clk not_after ts
      ≡ status_at
          (ltb not_after clk.status_expiry_at)
          (crossed_threshold (days_remaining not_after clk.status_days_at) ts)
unfolding compute_status crossed_threshold
compute_status-crossed_threshold clk not_after ts = ground (
  arith,
  last_crossed-any (days_remaining not_after clk.status_days_at) none (sort_descending ts),
  found-status_at (ltb not_after clk.status_expiry_at)
      (last_crossed (days_remaining not_after clk.status_days_at) none (sort_descending ts)),
)
