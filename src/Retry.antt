-- ===== src/Retry.antt =====
-- Backoff of internal/retry/backoff.go. A duration is a number of nanoseconds; the int64 of the shift
-- is written out.
pub mod Doubling
use pulseboard.Common.{
  ℕ, zero, suc, ◌+◌, ◌*◌, ◌%◌, min, Bool, true, false, ◌||◌, List, [], ◌∷◌, ltb, leb, eqb,
  if◌then◌else◌,
}

abbrev pub max_shift : ℕ
max_shift = 30

-- 2 ^ 63 and 2 ^ 64
abbrev pub int64_sign : ℕ
int64_sign = 9223372036854775808

abbrev pub int64_range : ℕ
int64_range = 18446744073709551616

pub record Backoff : Type 0 where
  pub least : ℕ
  pub most : ℕ
  pub has_jitter : Bool
  pub attempt : ℕ

-- `d << n`, before it is cut to 64 bits.
unfoldable pub shifted : ℕ → ℕ → ℕ
shifted d zero = d
shifted d (suc n) = 2 * shifted d n

-- The delay before the jitter. An int64 of 2 ^ 63 or more reads as negative.
unfoldable pub raw_delay : Backoff → ℕ
unfolding shifted
raw_delay b =
    let raw = shifted b.least (min b.attempt max_shift) % int64_range in
    if eqb raw 0 || (leb int64_sign raw || ltb b.most raw) then b.most else raw

-- Next: the delay, and the backoff with the counter advanced. `jittered` is what the random factor
-- makes of the delay.
unfoldable pub next : (ℕ → ℕ) → Backoff → ℕ × Backoff
unfolding raw_delay
next jittered b =
    let b' = record b { attempt = suc b.attempt } in
    (if b.has_jitter then jittered (raw_delay b) else raw_delay b, b')

unfoldable pub reset : Backoff → Backoff
reset b = record b { attempt = 0 }

-- The delays of the next calls.
unfoldable pub delays : (ℕ → ℕ) → ℕ → Backoff → List ℕ
unfolding next
delays jittered zero b = []
delays jittered (suc n) b = let (d, b') = next jittered b in d ∷ delays jittered n b'
