-- ===== src/Parlays/Candidate.antt =====
-- Candidates for the legs of a parlay and their scores (packages/parlay-engine/src/index.ts). The
-- comparison of two scores stands for the sign of their difference.
use gana_v.Prelude.{
  String, Bool, not, ◌||◌, Option, none, some, List, [], ◌∷◌, if◌then◌else◌, get_or, length,
}
use gana_v.Prelude.Texts.{join}
use gana_v.Numbers.{Numbers, integer}
use gana_v.Domain.Common.{Outcome, done, raised, ◌>>=◌}
use gana_v.Domain.Prediction.{PredictionMarket, PredictionOutcome}

module _ (N : Numbers) where
  pub record Candidate : Type 0 where
    pub prediction_id : String
    pub fixture_id : String
    pub market : PredictionMarket
    pub outcome : PredictionOutcome
    pub price : N.Num
    pub confidence : N.Num
    pub model_probability : N.Num
    pub implied_probability : Option N.Num
    pub edge : Option N.Num
    pub competition : Option String
    pub team_keys : Option (List String)
    pub tags : Option (List String)

  pub record Rank : Type 0 where
    pub candidate : Candidate
    pub score : N.Num
    pub edge : N.Num
    pub implied_probability : N.Num

  -- `clamp(value)`, between 0 and 1
  unfoldable pub clamp : N.Num → N.Num
  clamp value = N.least (integer N 1) (N.greatest (integer N 0) value)

  -- `values.reduce((sum, value) => sum + value, 0)`
  abbrev pub sum_from : N.Num → List N.Num → N.Num
  sum_from acc [] = acc
  sum_from acc (x ∷ xs) = sum_from (N.add acc x) xs

  unfoldable pub average : List N.Num → N.Num
  average [] = integer N 0
  average (x ∷ xs) = N.div (sum_from (integer N 0) (x ∷ xs)) (integer N (length (x ∷ xs)))

  unfoldable pub to_implied_probability : Candidate → N.Num
  to_implied_probability c = elim c.implied_probability [
    | none ↦ clamp (N.div (integer N 1) c.price)
    | some p ↦ clamp p
  ]

  unfoldable pub to_edge : Candidate → N.Num
  to_edge c = get_or c.edge (N.sub c.model_probability (to_implied_probability c))

  unfoldable pub to_candidate_score : Candidate → N.Num
  to_candidate_score c =
      let normalized_edge = clamp (N.div (N.add (to_edge c) (N.literal 2 1)) (N.literal 4 1)) in
      clamp (
        N.add
          (N.add (N.mul c.confidence (N.literal 45 2)) (N.mul c.model_probability (N.literal 35 2)))
          (N.mul normalized_edge (N.literal 2 1)))

  abbrev pub outside : N.Num → Bool
  outside value = N.ltb value (integer N 0) || N.ltb (integer N 1) value

  abbrev invalid : Candidate → String → String → Outcome (Unit {0})
  invalid c text code =
      raised (record { message = join ("Candidate " ∷ c.prediction_id ∷ text ∷ []); code = code })

  unfoldable pub validate_atomic_candidate : Candidate → Outcome (Unit {0})
  validate_atomic_candidate c =
      if N.leb c.price (integer N 1)
      then invalid c " price must be greater than 1" "PARLAY_INVALID_PRICE"
      else if outside c.confidence
      then invalid c " confidence must be between 0 and 1" "PARLAY_INVALID_CONFIDENCE"
      else if outside c.model_probability
      then invalid c " modelProbability must be between 0 and 1" "PARLAY_INVALID_PROBABILITY"
      else done tt

  abbrev pub rank_of : Candidate → Rank
  rank_of c = record {
    candidate = c;
    score = to_candidate_score c;
    edge = to_edge c;
    implied_probability = to_implied_probability c;
  }

  unfoldable pub score_atomic_candidate : Candidate → Outcome Rank
  score_atomic_candidate c = validate_atomic_candidate c >>= λ _. done (rank_of c)

  -- `candidates.map(scoreAtomicCandidate)` throws at the first candidate that is invalid.
  unfoldable pub score_all : List Candidate → Outcome (List Rank)
  score_all [] = done []
  score_all (c ∷ cs) = score_atomic_candidate c >>= λ r. (score_all cs >>= λ rs. done (r ∷ rs))

  -- The comparison of the sort: by score, then by edge, the higher first.
  unfoldable pub ranked_before : Rank → Rank → Bool
  ranked_before left right =
      if not (N.eqb right.score left.score)
      then N.ltb right.score left.score
      else N.ltb right.edge left.edge
