-- ===== src/Parlays/Correlation.antt =====
-- Correlation and risk of parlays (packages/parlay-engine/src/index.ts).
use gana_v.Prelude.{
  ℕ, String, Bool, true, false, Option, some, List, [], ◌∷◌, ◌++◌, if◌then◌else◌, get_or, length,
  any, keep, map, ltb,
}
use gana_v.Prelude.Texts.{str_eq}
use gana_v.Numbers.{Numbers, integer}
use gana_v.Domain.Prediction.{
  PredictionMarket, moneyline, totals, spread, both_teams_score, double_chance, corners_total,
  corners_h2h,
}
use gana_v.Parlays.Candidate.{Candidate, clamp, average}

abbrev pub same_market : PredictionMarket → PredictionMarket → Bool
same_market moneyline moneyline = true
same_market totals totals = true
same_market spread spread = true
same_market both_teams_score both_teams_score = true
same_market double_chance double_chance = true
same_market corners_total corners_total = true
same_market corners_h2h corners_h2h = true
same_market _ _ = false

unfoldable pub overlap_size : Option (List String) → Option (List String) → ℕ
overlap_size left right =
    length (keep (λ value. any (λ x. str_eq x value) (get_or right [])) (get_or left []))

-- `left !== undefined && left === right`
abbrev pub same_known : Option String → Option String → Bool
same_known (some l) (some r) = str_eq l r
same_known _ _ = false

module _ (N : Numbers) where
  -- `if (condition) correlation += amount`
  abbrev plus_if : Bool → N.Num → N.Num → N.Num
  plus_if condition amount correlation = if condition then N.add correlation amount else correlation

  unfoldable pub calculate_correlation : Candidate N → Candidate N → N.Num
  calculate_correlation left right = clamp N (
      plus_if (ltb 0 (overlap_size left.tags right.tags)) (N.literal 5 2) (
        plus_if (ltb 0 (overlap_size left.team_keys right.team_keys)) (N.literal 15 2) (
          plus_if (same_market left.market right.market) (N.literal 1 1) (
            plus_if (same_known left.competition right.competition) (N.literal 15 2)
              (plus_if (str_eq left.fixture_id right.fixture_id) (N.literal 55 2) (integer N 0))))))

  -- The correlations of all pairs, each candidate with those after it.
  unfoldable pub pair_scores : List (Candidate N) → List N.Num
  pair_scores [] = []
  pair_scores (c ∷ cs) = map (λ next. calculate_correlation c next) cs ++ pair_scores cs

  unfoldable pub calculate_parlay_correlation : List (Candidate N) → N.Num
  calculate_parlay_correlation candidates = average N (pair_scores candidates)

  -- `candidates.reduce((product, candidate) => product * clamp(candidate.modelProbability), 1)`
  abbrev pub probability_from : N.Num → List (Candidate N) → N.Num
  probability_from product [] = product
  probability_from product (c ∷ cs) =
      probability_from (N.mul product (clamp N c.model_probability)) cs

  unfoldable pub calculate_parlay_risk : List (Candidate N) → N.Num → N.Num
  calculate_parlay_risk candidates correlation_score = clamp N (
      N.add
        (N.add
          (N.mul (N.sub (integer N 1) (probability_from (integer N 1) candidates)) (N.literal 55 2))
          (N.mul correlation_score (N.literal 3 1)))
        (N.div (integer N (length candidates)) (integer N 12)))
