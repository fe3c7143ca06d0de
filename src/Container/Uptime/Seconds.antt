-- ===== src/Container/Uptime/Seconds.antt =====
-- The uptime against a count, second by second.
use pulseboard.Common.{
  ℕ, zero, suc, ◌+◌, ◌-◌, ◌*◌, ◌≤◌, ◌<◌, Bool, true, false, List, [], ◌∷◌, ◌≡◌, refl, sym, ◌∙◌, ap,
  arith, ltb, leb, min, max, if◌then◌else◌, Bool-cases, inl, inr,
}
use pulseboard.Container.Uptime.{StateTransition, is_up, end_of, span, up_seconds, compute_uptime}

-- How many of the n seconds from `start` on have a property.
abbrev pub count_from : (ℕ → Bool) → ℕ → ℕ → ℕ
count_from p start zero = 0
count_from p start (suc n) = (if p start then 1 else 0) + count_from p (start + 1) n

-- Whether the container is up in a second: as the last transition at that second or before left it, or
-- as given if there is none.
abbrev pub up_at : Bool → List StateTransition → ℕ → Bool
up_at b [] s = b
up_at b (t ∷ rest) s = let later = up_at (is_up t) rest s in if leb t.timestamp s then later else b

-- In the order of their times, none before `low`.
abbrev pub in_order_from : ℕ → List StateTransition → Bool
in_order_from low [] = true
in_order_from low (t ∷ rest) = if leb low t.timestamp then in_order_from t.timestamp rest else false

count_from-ext :
    (p q : ℕ → Bool) (start n : ℕ)
    → ((s : ℕ) → start ≤ s → s < start + n → p s ≡ q s)
    → count_from p start n ≡ count_from q start n
count_from-ext p q start zero h = refl
count_from-ext p q start (suc n) h =
    let here = h start (omega arith) (omega arith) in
    let rest =
      count_from-ext p q (start + 1) n (λ s a b. h s (omega (arith, a)) (omega (arith, b))) in
    ground (arith, here, rest)

count_from-append :
    (p : ℕ → Bool) (start m n : ℕ)
    → count_from p start (m + n) ≡ count_from p start m + count_from p (start + m) n
count_from-append p start zero n =
    let whole : 0 + n ≡ n = omega arith in
    let here : start + 0 ≡ start = omega arith in rw (whole, here) (omega arith)
count_from-append p start (suc m) n =
    let whole : suc m + n ≡ suc (m + n) = omega arith in
    let here : start + suc m ≡ start + 1 + m = omega arith in
    rw (whole, here) (omega (arith, count_from-append p (start + 1) m n))

count_from-constant : (b : Bool) (start n : ℕ) → count_from (λ s. b) start n ≡ (if b then n else 0)
count_from-constant true start zero = refl
count_from-constant false start zero = refl
count_from-constant true start (suc n) = omega (arith, count_from-constant true (start + 1) n)
count_from-constant false start (suc n) = omega (arith, count_from-constant false (start + 1) n)

-- What is up of the rest of the window, with the span before its first transition.
abbrev rest_up : ℕ → ℕ → ℕ → Bool → List StateTransition → ℕ
rest_up from to low b ts =
    (if b then span from to low (end_of to ts) else 0) + up_seconds from to ts

count_from-up_at :
    (from to low : ℕ) (b : Bool) (ts : List StateTransition)
    → in_order_from low ts ≡ true
    → count_from (up_at b ts) (max low from) (to - max low from) ≡ rest_up from to low b ts
unfolding up_seconds
count_from-up_at from to low b [] o =
    count_from-constant b (max low from) (to - max low from) ∙ ground arith
count_from-up_at from to low b (t ∷ rest) o =
    let now = t.timestamp in
    let start = max low from in
    let next = max now from in
    let first = min to next - start in
    let left = to - next in
    let before : low ≤ now = ground (arith, o) in
    let parts : to - start ≡ first + left = omega (arith, before) in
    let early : count_from (up_at b (t ∷ rest)) start first ≡ count_from (λ s. b) start first =
      count_from-ext (up_at b (t ∷ rest)) (λ s. b) start first (λ s h k. ground (arith, h, k)) in
    let late : count_from (up_at b (t ∷ rest)) (start + first) left
        ≡ count_from (up_at (is_up t) rest) next left =
      elim (Bool-cases (ltb next to)) [
        | inl l ↦
            let there : start + first ≡ next = ground (arith, l, before) in
            rw there (
              count_from-ext (up_at b (t ∷ rest)) (up_at (is_up t) rest) next left
                (λ s h k. ground (arith, h)))
        | inr g ↦ let nothing : left ≡ 0 = ground (arith, g) in rw nothing refl
      ] in
    ap (count_from (up_at b (t ∷ rest)) start) parts
    ∙ count_from-append (up_at b (t ∷ rest)) start first left
    ∙ ground (
      arith,
      before,
      early,
      late,
      count_from-constant b start first,
      count_from-up_at from to now (is_up t) rest (ground (arith, o)),
    )

-- The float arithmetic, in hundredths of a percent: cut off, and at most one hundredth too low.
pub record IsTruncated (percent : ℕ → ℕ → ℕ) : Type 0 where
  pub not_above : (up total : ℕ) → 0 < total → percent up total * total ≤ 10000 * up
  pub not_far_below : (up total : ℕ) → 0 < total → 10000 * up < (percent up total + 2) * total

count_from-le : (p : ℕ → Bool) (start n : ℕ) → count_from p start n ≤ n
count_from-le p start zero = omega arith
count_from-le p start (suc n) = ground (arith, count_from-le p (start + 1) n)

-- The cap at 100 keeps both bounds: no more than all seconds are up.
capped :
    (p up total : ℕ)
    → p * total ≤ 10000 * up
    → 10000 * up < (p + 2) * total
    → up ≤ total
    → 0 < total
    → (min 10000 p * total ≤ 10000 * up) × (10000 * up < (min 10000 p + 2) * total)
capped p up total a b h z = elim (Bool-cases (leb p 10000)) [
  | inl l ↦ let same : min 10000 p ≡ p = ground (arith, l) in rw same (a, b)
  | inr g ↦
      let cap : min 10000 p ≡ 10000 = ground (arith, g) in
      let large : 10000 ≤ p = ground (arith, g) in
      rw cap (grind (arith, a, large), omega (arith, h, z))
]

-- The uptime of a window with a transition is the share of its seconds in which the container is up,
-- in hundredths of a percent, cut off and at most one hundredth too low: up in a second is what the
-- last transition at that second or before left running and not unhealthy, and a second before the
-- first transition counts as down. The transitions are in the order of their times, and the window is
-- not empty.
pub compute_uptime-count_from :
    (percent : ℕ → ℕ → ℕ) (t : StateTransition) (rest : List StateTransition) (from to : ℕ)
    → IsTruncated percent
    → in_order_from 0 (t ∷ rest) ≡ true
    → from < to
    → let up = count_from (up_at false (t ∷ rest)) from (to - from) in
      let total = to - from in
      (compute_uptime percent (t ∷ rest) from to * total ≤ 10000 * up)
      × (10000 * up < (compute_uptime percent (t ∷ rest) from to + 2) * total)
unfolding compute_uptime
compute_uptime-count_from percent t rest from to n o l =
    let total = to - from in
    let up = up_seconds from to (t ∷ rest) in
    let some_time : 0 < total = omega (arith, l) in
    let open_window : leb to from ≡ false = ground (arith, l) in
    let counted : count_from (up_at false (t ∷ rest)) from total ≡ up =
      sym (ap (λ m. count_from (up_at false (t ∷ rest)) m (to - m)) (omega arith))
      ∙ count_from-up_at from to 0 false (t ∷ rest) o
      ∙ omega arith in
    let all_up = count_from-le (up_at false (t ∷ rest)) from total in
    rw (open_window, counted)
      (capped (percent up total) up total (n.not_above up total some_time)
        (n.not_far_below up total some_time) (omega (arith, counted, all_up)) some_time)
