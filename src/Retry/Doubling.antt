-- ===== src/Retry/Doubling.antt =====
-- The delays without a jitter, as long as the shift stays within an int64.
use pulseboard.Common.{
  ℕ, zero, suc, ◌+◌, ◌-◌, ◌*◌, ◌≤◌, ◌<◌, min, false, List, [], ◌∷◌, ◌≡◌, refl, ap, arith,
}
use pulseboard.Retry.{Backoff, shifted, raw_delay, next, reset, delays}

shifted_le : (d n m j : ℕ) → n + m ≡ j → shifted d n ≤ shifted d j
unfolding shifted
shifted_le d n zero j e = let same : n ≡ j = omega (arith, e) in omega (arith, ap (shifted d) same)
shifted_le d n (suc m) zero e = omega (arith, e)
shifted_le d n (suc m) (suc j) e = omega (arith, shifted_le d n m j (omega (arith, e)))

shifted_max : (d : ℕ) → shifted d 30 ≡ 1073741824 * d
unfolding shifted
shifted_max d = omega arith

shifted-positive : (d n : ℕ) → 0 < d → 0 < shifted d n
unfolding shifted
shifted-positive d zero p = p
shifted-positive d (suc n) p = omega (arith, shifted-positive d n p)

-- The delays to expect: each twice the one before, up to the greatest, and steady after thirty.
abbrev pub doubled : ℕ → ℕ → ℕ → ℕ → List ℕ
doubled least most attempt zero = []
doubled least most attempt (suc n) =
    min most (shifted least (min attempt 30)) ∷ doubled least most (suc attempt) n

raw_delay-doubled :
    (b : Backoff)
    → 0 < b.least
    → b.least < 8589934592
    → raw_delay b ≡ min b.most (shifted b.least (min b.attempt 30))
unfolding raw_delay
raw_delay-doubled b p l =
    let n = min b.attempt 30 in
    ground (
      arith,
      p,
      l,
      shifted_le b.least n (30 - n) 30 (omega arith),
      shifted_max b.least,
      shifted-positive b.least n p,
    )

delays-doubled :
    (jittered : ℕ → ℕ) (n : ℕ) (b : Backoff)
    → b.has_jitter ≡ false
    → 0 < b.least
    → b.least < 8589934592
    → delays jittered n b ≡ doubled b.least b.most b.attempt n
unfolding delays next
delays-doubled jittered zero b j p l = refl
delays-doubled jittered (suc n) b j p l = ground (
  arith,
  j,
  raw_delay-doubled b p l,
  delays-doubled jittered n (record b { attempt = suc b.attempt }) j p l,
)

-- Without a jitter, for a least delay that is positive and below 2 ^ 33 nanoseconds (eight seconds and a
-- half), the delays after a reset begin with the least one, each doubles the one before, up to the
-- greatest, and they stay the same from the thirty-first on: no shift overflows an int64.
pub delays-reset :
    (jittered : ℕ → ℕ) (n : ℕ) (b : Backoff)
    → b.has_jitter ≡ false
    → 0 < b.least
    → b.least < 8589934592
    → delays jittered n (reset b) ≡ doubled b.least b.most 0 n
unfolding reset
delays-reset jittered n b j p l = delays-doubled jittered n (record b { attempt = 0 }) j p l
