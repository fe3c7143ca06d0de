-- ===== src/Security/Scorer/Infrastructure.antt =====
-- ScoreInfrastructure of internal/security/scorer.go. sort.Slice is a parameter, once per use.
-- math.Round of the mean, a number below 101, is exact.
pub mod Mean
use pulseboard.Common.{
  ℕ, suc, ◌+◌, ◌-◌, ◌*◌, ◌/◌, ◌≤◌, String, string_eq, Bool, true, false, not, ◌&&◌, ◌||◌, Option,
  none, some, List, [], ◌∷◌, ◌++◌, ◌==◌, ◌≡◌, refl, arith, ltb, leb, length, map, All,
  if◌then◌else◌,
}
use pulseboard.Common.Assoc.{lookup, insert}
use pulseboard.Security.Categories.{
  World, Result, err, ok, and_then, CategoryScore, SecurityScore, color_level_of,
}
use pulseboard.Security.Scoring.{concat}
use pulseboard.Security.Scorer.{ScoreCache, score_container}

pub record ContainerInfo : Type 0 where
  pub id : String
  pub external_id : String
  pub name : String

pub record CategorySummary : Type 0 where
  pub name : String
  pub total_issues : ℕ
  pub summary : String

pub record ContainerRisk : Type 0 where
  pub container_id : String
  pub container_name : String
  pub score : ℕ
  pub color_level : String
  pub top_issue : String

pub record InfrastructurePosture : Type 0 where
  pub score : ℕ
  pub color_level : String
  pub container_count : ℕ
  pub scored_count : ℕ
  pub is_partial : Bool
  pub categories : List CategorySummary
  pub top_risks : List ContainerRisk

-- The loop over the containers, each with the time of its call and that of the storing. No other call
-- comes between.
abbrev pub add_score :
    Option SecurityScore
    → ScoreCache × Result (List SecurityScore)
    → ScoreCache × Result (List SecurityScore)
add_score none rest = rest
add_score (some score) (cache, err e) = (cache, err e)
add_score (some score) (cache, ok scores) = (cache, ok (score ∷ scores))

abbrev pub after_answer :
    ScoreCache
    → Result (Option SecurityScore)
    → ScoreCache × Result (List SecurityScore)
    → ScoreCache × Result (List SecurityScore)
after_answer next (err e) rest = (next, err e)
after_answer next (ok score) rest = add_score score rest

unfoldable pub score_all :
    World → List (ContainerInfo × ℕ × ℕ) → ScoreCache → ScoreCache × Result (List SecurityScore)
score_all w [] cache = (cache, ok [])
score_all w ((c, now, stored) ∷ containers) cache =
    let (next, answer) = score_container w now stored c.id c.external_id c.name cache in
    let rest = score_all w containers next in after_answer next answer rest

unfoldable pub total_of : List SecurityScore → ℕ
total_of [] = 0
total_of (s ∷ scores) = s.total_score + total_of scores

-- int(math.Round(float64(totalScore) / float64(len(scores))))
abbrev pub average : ℕ → ℕ → ℕ
average total n = (2 * total + n) / (2 * n)

abbrev pub count_of : Option ℕ → ℕ
count_of none = 0
count_of (some n) = n

unfoldable pub add_issues : List CategoryScore → List (String × ℕ) → List (String × ℕ)
add_issues [] issues = issues
add_issues (c ∷ cs) issues = add_issues cs (
    if c.applicable
    then insert c.name (count_of (lookup c.name issues) + c.issue_count) issues
    else issues)

unfoldable pub category_issues : List SecurityScore → List (String × ℕ) → List (String × ℕ)
category_issues [] issues = issues
category_issues (s ∷ scores) issues = category_issues scores (add_issues s.categories issues)

abbrev pub summary_of : (ℕ → String) → String × ℕ → CategorySummary
summary_of dec (name, issues) = record {
  name = name;
  total_issues = issues;
  summary = concat (dec issues ∷ " issues" ∷ []);
}

-- The worst category so far, and its score.
unfoldable pub worst_from : ℕ → String → List CategoryScore → String
worst_from worst summary [] = summary
worst_from worst summary (c ∷ cs) =
    if c.applicable && ltb c.sub_score worst
    then worst_from c.sub_score c.summary cs
    else worst_from worst summary cs

abbrev pub top_issue_from_score : SecurityScore → String
top_issue_from_score s = worst_from 101 "" s.categories

abbrev pub risk_of : SecurityScore → ContainerRisk
risk_of s = record {
  container_id = s.container_id;
  container_name = s.container_name;
  score = s.total_score;
  color_level = s.color_level;
  top_issue = top_issue_from_score s;
}

abbrev pub take {ℓ} : {A : Type ℓ} → ℕ → List A → List A
take n [] = []
take n (x ∷ xs) = let rest = take (n - 1) xs in if ltb 0 n then x ∷ rest else []

unfoldable pub some_partial : List SecurityScore → Bool
some_partial [] = false
some_partial (s ∷ scores) = s.is_partial || some_partial scores

pub record Sorts : Type 0 where
  -- by TotalIssues, the most first
  pub summaries : List CategorySummary → List CategorySummary
  -- by TotalScore, the least first
  pub scores : List SecurityScore → List SecurityScore

abbrev pub posture_of : Sorts → (ℕ → String) → ℕ → List SecurityScore → InfrastructurePosture
posture_of sorts dec containers [] = record {
  score = 0;
  color_level = "red";
  container_count = containers;
  scored_count = 0;
  is_partial = false;
  categories = [];
  top_risks = [];
}
posture_of sorts dec containers (s ∷ scores) =
    let all = s ∷ scores in
    let mean = average (total_of all) (length all) in
    record {
      score = mean;
      color_level = color_level_of mean;
      container_count = containers;
      scored_count = length all;
      is_partial = some_partial all;
      categories = sorts.summaries (map (summary_of dec) (category_issues all []));
      top_risks = map risk_of (take 10 (sorts.scores all));
    }

unfoldable pub score_infrastructure :
    Sorts
    → World
    → List (ContainerInfo × ℕ × ℕ)
    → ScoreCache
    → ScoreCache × Result InfrastructurePosture
score_infrastructure sorts w containers cache =
    let (next, scores) = score_all w containers cache in
    (next, and_then scores (λ scores. ok (posture_of sorts w.dec (length containers) scores)))
