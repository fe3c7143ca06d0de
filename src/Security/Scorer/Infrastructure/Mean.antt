-- ===== src/Security/Scorer/Infrastructure/Mean.antt =====
-- The score of the infrastructure is the rounded mean of its containers' scores.
use native.Mathlib.Nat.{div-mul-le_self, lt-div-mul-add, le_of_mul-le-mul_left}
use pulseboard.Common.{
  Bool, true, ◌&&◌, all, leb, ℕ, suc, ◌+◌, ◌*◌, ◌≤◌, ◌<◌, String, List, [], ◌∷◌, ◌≡◌, refl, arith,
  length, any, map, ◌||◌, ◌∙◌, Option, none, some, ap,
}
use pulseboard.Security.Categories.{World, Result, err, ok, SecurityScore}
use pulseboard.Security.Scorer.{ScoreCache, score_container}
use pulseboard.Security.Scorer.Infrastructure.{
  ContainerInfo, InfrastructurePosture, after_answer, score_all, total_of, average, some_partial,
  Sorts, posture_of, score_infrastructure,
}

-- A nearest whole number to total / n.
average-near :
    (total n : ℕ)
    → (2 * (suc n * average total (suc n)) ≤ 2 * total + suc n)
      × (2 * total ≤ 2 * (suc n * average total (suc n)) + suc n)
average-near total n =
    let top = 2 * total + suc n in
    let d = 2 * suc n in
    let low = div-mul-le_self top d in
    let high : top < average total (suc n) * d + d = lt-div-mul-add (omega arith) in
    (grind (arith, low), grind (arith, high))

-- The answers of ScoreContainer for the containers, one after the other.
abbrev pub answers :
    World → List (ContainerInfo × ℕ × ℕ) → ScoreCache → List (Result (Option SecurityScore))
answers w [] cache = []
answers w ((c, now, stored) ∷ containers) cache =
    let (next, answer) = score_container w now stored c.id c.external_id c.name cache in
    answer ∷ answers w containers next

-- The scores among what was found.
abbrev pub present : List (Option SecurityScore) → List SecurityScore
present [] = []
present (none ∷ found) = present found
present (some score ∷ found) = score ∷ present found

abbrev head_of : List (Result (Option SecurityScore)) → Result (Option SecurityScore)
head_of [] = ok none
head_of (a ∷ others) = a

abbrev tail_of : List (Result (Option SecurityScore)) → List (Result (Option SecurityScore))
tail_of [] = []
tail_of (a ∷ others) = others

after_answer-present :
    (next : ScoreCache) (o : Option SecurityScore) (found : List (Option SecurityScore))
    (rest : ScoreCache × Result (List SecurityScore))
    → rest.1 ≡ ok (present found)
    → (after_answer next (ok o) rest).1 ≡ ok (present (o ∷ found))
after_answer-present next none found rest e = e
after_answer-present next (some score) found (cache, err x) e = absurd (ground (arith, e))
after_answer-present next (some score) found (cache, ok scores) e = ground (arith, e)

score_all-present :
    (w : World) (containers : List (ContainerInfo × ℕ × ℕ)) (cache : ScoreCache)
    (found : List (Option SecurityScore))
    → answers w containers cache ≡ map (λ o. ok o) found
    → (score_all w containers cache).1 ≡ ok (present found)
unfolding score_all
score_all-present w [] cache [] e = refl
score_all-present w [] cache (o ∷ found) e = absurd (ground (arith, e))
score_all-present w (c ∷ containers) cache [] e = absurd (ground (arith, e))
score_all-present w ((c, now, stored) ∷ containers) cache (o ∷ found) e =
    let (next, answer) = score_container w now stored c.id c.external_id c.name cache in
    let rest = score_all w containers next in
    ap (λ a. (after_answer next a rest).1) (ap head_of e)
    ∙ after_answer-present next o found rest
        (score_all-present w containers next found (ap tail_of e))

abbrev pub sum : List ℕ → ℕ
sum [] = 0
sum (n ∷ ns) = n + sum ns

total_of-sum :
    (scores : List SecurityScore) → total_of scores ≡ sum (map (λ s. s.total_score) scores)
unfolding total_of
total_of-sum [] = refl
total_of-sum (s ∷ scores) = omega (arith, total_of-sum scores)

some_partial-any :
    (scores : List SecurityScore) → some_partial scores ≡ any (λ s. s.is_partial) scores
unfolding some_partial
some_partial-any [] = refl
some_partial-any (s ∷ scores) = ap (λ b. s.is_partial || b) (some_partial-any scores)

abbrev pub IsMean : List SecurityScore → InfrastructurePosture → Type 0
IsMean scores p =
    let n = length scores in
    let total = sum (map (λ s. s.total_score) scores) in
    (p.scored_count ≡ n)
    × (p.is_partial ≡ any (λ s. s.is_partial) scores)
    × (2 * (n * p.score) ≤ 2 * total + n)
    × (2 * total ≤ 2 * (n * p.score) + n)

posture_of-IsMean :
    (sorts : Sorts) (dec : ℕ → String) (n : ℕ) (scores : List SecurityScore)
    → IsMean scores (posture_of sorts dec n scores)
unfolding total_of some_partial
posture_of-IsMean sorts dec n [] = (refl, refl, omega arith, omega arith)
posture_of-IsMean sorts dec n (s ∷ scores) =
    let (low, high) = average-near (total_of (s ∷ scores)) (length scores) in
    let same = total_of-sum (s ∷ scores) in
    (refl, some_partial-any (s ∷ scores), omega (arith, low, same), omega (arith, high, same))

abbrev pub is_between : ℕ → ℕ → SecurityScore → Bool
is_between low high s = leb low s.total_score && leb s.total_score high

total_of-between :
    (low high : ℕ) (scores : List SecurityScore)
    → all (is_between low high) scores ≡ true
    → (length scores * low ≤ sum (map (λ s. s.total_score) scores))
      × (sum (map (λ s. s.total_score) scores) ≤ length scores * high)
total_of-between low high [] h = (omega arith, omega arith)
total_of-between low high (s ∷ scores) h =
    let (above, below) = total_of-between low high scores (ground (arith, h)) in
    let at_least : low ≤ s.total_score = ground (arith, h) in
    let at_most : s.total_score ≤ high = ground (arith, h) in
    (grind (arith, above, at_least), grind (arith, below, at_most))

mean-between :
    (n total mean low high : ℕ)
    → 0 < n
    → 2 * (n * mean) ≤ 2 * total + n
    → 2 * total ≤ 2 * (n * mean) + n
    → n * low ≤ total
    → total ≤ n * high
    → (low ≤ mean) × (mean ≤ high)
mean-between n total mean low high z a b l h =
    let above : 2 * low ≤ 2 * mean + 1 = le_of_mul-le-mul_left (grind (arith, b, l)) z in
    let below : 2 * mean ≤ 2 * high + 1 = le_of_mul-le-mul_left (grind (arith, a, h)) z in
    (omega (arith, above), omega (arith, below))

-- If no container fails, asked one after the other, and one of them at least has a score, there is a posture, which counts the
-- containers that have a score, is partial exactly if one of these is, and has a score that differs by
-- at most a half from the mean of theirs and is between any two bounds on them.
pub score_infrastructure-IsMean :
    (sorts : Sorts) (w : World) (containers : List (ContainerInfo × ℕ × ℕ)) (cache : ScoreCache)
    (found : List (Option SecurityScore)) (low high : ℕ)
    → answers w containers cache ≡ map (λ o. ok o) found
    → 0 < length (present found)
    → all (is_between low high) (present found) ≡ true
    → (p : InfrastructurePosture) × ((score_infrastructure sorts w containers cache).1 ≡ ok p)
      × IsMean (present found) p
      × (low ≤ p.score)
      × (p.score ≤ high)
unfolding score_infrastructure
score_infrastructure-IsMean sorts w containers cache found low high e z h =
    let scores = present found in
    let total = sum (map (λ s. s.total_score) scores) in
    let p = posture_of sorts w.dec (length containers) scores in
    let (count, part, a, b) = posture_of-IsMean sorts w.dec (length containers) scores in
    let (l, m) = total_of-between low high scores h in
    let (above, below) = mean-between (length scores) total p.score low high z a b l m in
    (p, rw (score_all-present w containers cache found e) refl, (count, part, a, b), above, below)
