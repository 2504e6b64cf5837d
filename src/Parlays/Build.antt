-- ===== src/Parlays/Build.antt =====
-- `buildParlayFromCandidates` (packages/parlay-engine/src/index.ts): ranking, selection and the
-- card of scores.
use gana_v.Prelude.{
  ℕ, String, Bool, Option, none, List, [], ◌∷◌, ◌++◌, if◌then◌else◌, get_or, length, ltb, map, ◌==◌,
}
use gana_v.Prelude.Texts.{join}
use gana_v.Prelude.Sort.{sort}
use gana_v.Numbers.{Numbers, integer}
use gana_v.Domain.Common.{IsoDate, Outcome, done, raised, ◌>>=◌}
use gana_v.Domain.Parlay.{ParlaySource, ParlayStatus, LegStatus, ParlayLeg, Parlay, create_parlay}
use gana_v.Parlays.Candidate.{
  Candidate, Rank, clamp, average, to_candidate_score, score_all, ranked_before,
}
use gana_v.Parlays.Correlation.{
  probability_from, calculate_parlay_correlation, calculate_parlay_risk,
}
use gana_v.Parlays.Selection.{Rejection, market_text, outcome_text, consider_all, nothing_selected}

module _ (N : Numbers) where
  pub record ParlayPolicy : Type 0 where
    pub min_legs : Option ℕ
    pub max_legs : Option ℕ
    pub max_correlation_score : Option N.Num

  pub record BuildInput : Type 0 where
    pub policy : ParlayPolicy
    pub id : String
    pub stake : N.Num
    pub source : ParlaySource
    pub candidates : List (Candidate N)
    pub created_at : Option IsoDate

  pub record Scorecard : Type 0 where
    pub leg_count : ℕ
    pub average_leg_score : N.Num
    pub combined_probability : N.Num
    pub combined_price : N.Num
    pub expected_value_per_unit : N.Num
    pub parlay_score : N.Num
    pub risk_score : N.Num
    pub correlation_score : N.Num
    pub ready : Bool
    pub reasons : List String

  pub record BuildResult : Type 0 where
    pub parlay : Parlay N IsoDate
    pub ranked_candidates : List (Rank N)
    pub selected_candidates : List (Candidate N)
    pub rejected_candidates : List (Rejection N)
    pub scorecard : Scorecard

  -- `{ ...DEFAULT_POLICY, ...input }`
  abbrev pub min_legs_of : ParlayPolicy → ℕ
  min_legs_of policy = get_or policy.min_legs 2

  abbrev pub max_legs_of : ParlayPolicy → ℕ
  max_legs_of policy = get_or policy.max_legs 4

  abbrev pub max_correlation_of : ParlayPolicy → N.Num
  max_correlation_of policy = get_or policy.max_correlation_score (N.literal 55 2)

  abbrev pub price_from : N.Num → List (Candidate N) → N.Num
  price_from product [] = product
  price_from product (c ∷ cs) = price_from (N.mul product c.price) cs

  unfoldable pub build_reasons : ParlayPolicy → ℕ → N.Num → List String
  build_reasons policy leg_count correlation_score =
      (if ltb leg_count (min_legs_of policy)
        then join
            ("requires at least " ∷ N.to_string (integer N (min_legs_of policy)) ∷ " legs" ∷ [])
          ∷ []
        else [])
      ++ (if N.ltb (max_correlation_of policy) correlation_score
          then join (
              "correlation "
              ∷ N.to_fixed correlation_score 2
              ∷ " exceeds "
              ∷ N.to_fixed (max_correlation_of policy) 2
              ∷ [])
            ∷ []
          else [])

  abbrev pub to_leg : Candidate N → ParlayLeg N
  to_leg c = record {
    prediction_id = c.prediction_id;
    fixture_id = c.fixture_id;
    market = market_text c.market;
    outcome = outcome_text c.outcome;
    price = c.price;
    status = LegStatus.pending;
  }

  unfoldable pub scorecard_of : ParlayPolicy → List (Candidate N) → Scorecard
  scorecard_of policy selected =
      let average_leg_score = average N (map (to_candidate_score N) selected) in
      let probability = probability_from N (integer N 1) selected in
      let price = price_from (integer N 1) selected in
      let correlation = calculate_parlay_correlation N selected in
      let risk = calculate_parlay_risk N selected correlation in
      let reasons = build_reasons policy (length selected) correlation in
      record {
        leg_count = length selected;
        average_leg_score = average_leg_score;
        combined_probability = probability;
        combined_price = price;
        expected_value_per_unit = N.sub (N.mul probability price) (integer N 1);
        parlay_score = clamp N (
            N.add
              (N.add (N.mul average_leg_score (N.literal 55 2)) (N.mul probability (N.literal 2 1)))
              (N.mul (N.sub (integer N 1) risk) (N.literal 25 2)));
        risk_score = risk;
        correlation_score = correlation;
        ready = length reasons == 0;
        reasons = reasons;
      }

  -- The argument of `createParlay`
  abbrev pub parlay_input : BuildInput → List (Candidate N) → Scorecard → Parlay N (Option IsoDate)
  parlay_input input selected card = record {
    id = input.id;
    status = if card.ready then ParlayStatus.ready else ParlayStatus.draft;
    stake = input.stake;
    source = input.source;
    legs = map to_leg selected;
    correlation_score = card.correlation_score;
    expected_payout = N.mul input.stake card.combined_price;
    submitted_at = none;
    settled_at = none;
    created_at = input.created_at;
    updated_at = none;
  }

  -- What is built from the ranked candidates, once the loop over them has made its selection.
  unfoldable pub build_selected :
      BuildInput
      → List (Rank N)
      → List (Candidate N)
      → List (Rejection N)
      → IsoDate
      → Outcome BuildResult
  build_selected input ranked selected rejected now =
      let card = scorecard_of input.policy selected in
      if length selected == 0
      then raised (record {
        message = "Unable to build parlay without valid atomic candidates";
        code = "PARLAY_NO_VALID_CANDIDATES";
      })
      else (create_parlay N (parlay_input input selected card) now >>= λ parlay. done (record {
        parlay = parlay;
        ranked_candidates = ranked;
        selected_candidates = selected;
        rejected_candidates = rejected;
        scorecard = card;
      }))

  unfoldable pub build_parlay_from_candidates : BuildInput → IsoDate → Outcome BuildResult
  build_parlay_from_candidates input now = score_all N input.candidates >>= λ scored.
      (let ranked = sort (ranked_before N) scored in
        let s = consider_all N (max_legs_of input.policy) ranked (nothing_selected N) in
        build_selected input ranked s.selected s.rejected now)
