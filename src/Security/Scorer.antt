-- ===== src/Security/Scorer.antt =====
-- computeContainerScore, ScoreContainer and InvalidateCache of internal/security/scorer.go. Times are
-- seconds.
pub mod Answers
pub mod Bounds
pub mod Cache
pub mod Infrastructure
use pulseboard.Common.{
  ℕ, zero, suc, get_elem?, ◌+◌, String, string_eq, Bool, true, false, not, ◌&&◌, Option, none, some,
  List, [], ◌∷◌, ◌==◌, ltb, leb, min, if◌then◌else◌,
}
use pulseboard.Common.Assoc.{lookup, insert, delete}
use pulseboard.Security.Categories.{
  World, Result, err, ok, and_then, CategoryScore, SecurityScore, color_level_of, tls_category,
  cve_category, update_categories, network_category,
}

-- The three loops over the applicable categories.
unfoldable pub total_weight : List CategoryScore → ℕ
total_weight [] = 0
total_weight (c ∷ cs) = (if c.applicable then c.weight else 0) + total_weight cs

unfoldable pub applicable_count : List CategoryScore → ℕ
applicable_count [] = 0
applicable_count (c ∷ cs) = (if c.applicable then 1 else 0) + applicable_count cs

unfoldable pub weighted_sum : (ℕ → ℕ → ℕ → ℕ) → ℕ → List CategoryScore → ℕ
weighted_sum share total [] = 0
weighted_sum share total (c ∷ cs) =
    (if c.applicable then share c.sub_score c.weight total else 0) + weighted_sum share total cs

-- The copy into CategoryScore, with the summary of what does not apply.
unfoldable pub reported : List CategoryScore → List CategoryScore
reported [] = []
reported (c ∷ cs) =
    (if not c.applicable && c.summary == "" then record c { summary = "not applicable" } else c)
    ∷ reported cs

-- The sum is of shares that are not negative: only the clamp at 100 can act.
abbrev pub score_of : World → String → String → List CategoryScore → Bool → SecurityScore
score_of w id name categories is_partial =
    let total = min 100 (weighted_sum w.share (total_weight categories) categories) in
    record {
      container_id = id;
      container_name = name;
      total_score = total;
      color_level = color_level_of total;
      categories = reported categories;
      applicable_count = applicable_count categories;
      is_partial = is_partial;
    }

-- From the categories on; `ok none` is `nil, nil`.
unfoldable pub summed_up :
    World → String → String → List CategoryScore → Bool → Result (Option SecurityScore)
summed_up w id name categories is_partial =
    if leb 1 (applicable_count categories)
    then ok (some (score_of w id name categories is_partial))
    else ok none

unfoldable pub compute_container_score :
    World → ℕ → String → String → String → Result (Option SecurityScore)
compute_container_score w now id ext name = and_then (tls_category w ext) (λ tls.
    and_then (cve_category w ext) (λ cves. and_then (update_categories w now ext) (λ updates.
      summed_up w id name (tls ∷ cves.0 ∷ updates.0 ∷ network_category w id ext ∷ updates.1 ∷ [])
        cves.1)))

pub record CachedScore : Type 0 where
  pub score : SecurityScore
  pub expires_at : ℕ

abbrev pub ScoreCache : Type 0
ScoreCache = List (String × CachedScore)

-- The entry that still holds.
abbrev pub unexpired : ℕ → Option CachedScore → Option SecurityScore
unexpired now none = none
unexpired now (some c) = if ltb now c.expires_at then some c.score else none

-- What ScoreContainer does with a new score, with its second reading of the clock.
abbrev pub remember :
    ℕ
    → String
    → ScoreCache
    → Result (Option SecurityScore)
    → ScoreCache × Result (Option SecurityScore)
remember stored id cache (err e) = (cache, err e)
remember stored id cache (ok none) = (cache, ok none)
remember stored id cache (ok (some score)) =
    (insert id (record { score = score; expires_at = stored + 10 }) cache, ok (some score))

abbrev pub from_cache :
    World
    → ℕ
    → ℕ
    → String
    → String
    → String
    → ScoreCache
    → Option SecurityScore
    → ScoreCache × Result (Option SecurityScore)
from_cache w now stored id ext name cache (some score) = (cache, ok (some score))
from_cache w now stored id ext name cache none =
    remember stored id cache (compute_container_score w now id ext name)

-- ScoreContainer where no other call comes between its two parts.
unfoldable pub score_container :
    World
    → ℕ
    → ℕ
    → String
    → String
    → String
    → ScoreCache
    → ScoreCache × Result (Option SecurityScore)
score_container w now stored id ext name cache =
    from_cache w now stored id ext name cache (unexpired now (lookup id cache))

unfoldable pub invalidate_cache : String → ScoreCache → ScoreCache
invalidate_cache id cache = delete id cache

-- A call between its two locks, with what it has computed, and all such calls beside the cache.
pub record InFlight : Type 0 where
  pub id : String
  pub result : Result (Option SecurityScore)

pub record Calls : Type 0 where
  pub cache : ScoreCache
  pub running : List InFlight

abbrev pub begun : InFlight → Option SecurityScore → Calls → Calls
begun call none s = record s { running = call ∷ s.running }
begun call (some score) s = s

-- The first part of ScoreContainer, up to the computed score, and what it answers from the cache.
unfoldable pub begin_score :
    World → ℕ → String → String → String → Calls → Calls × Option SecurityScore
begin_score w now id ext name s =
    let entry = unexpired now (lookup id s.cache) in
    let call : InFlight = record { id = id; result = compute_container_score w now id ext name } in
    (begun call entry s, entry)

abbrev pub without {ℓ} : {A : Type ℓ} → ℕ → List A → List A
without i [] = []
without zero (x ∷ xs) = xs
without (suc i) (x ∷ xs) = x ∷ without i xs

abbrev pub ended : ℕ → ℕ → Option InFlight → Calls → Calls
ended stored i none s = s
ended stored i (some call) s = record {
  cache = (remember stored call.id s.cache call.result).0;
  running = without i s.running;
}

-- The second part, of the i-th of the calls under way; it answers what was computed.
unfoldable pub end_score : ℕ → ℕ → Calls → Calls
end_score stored i s = ended stored i (get_elem? s.running i) s
