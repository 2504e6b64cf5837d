-- ===== src/Domain/Prediction.antt =====
-- Predictions (packages/domain-core/src/entities/prediction.ts). The argument of the creation differs
-- from the entity in its times, which may be missing.
use gana_v.Prelude.{
  String, Option, some, List, [], ◌∷◌, Bool, true, false, not, ◌||◌, if◌then◌else◌, get_or,
}
use gana_v.Prelude.Texts.{join}
use gana_v.Numbers.{Numbers, integer}
use gana_v.Domain.Common.{IsoDate, Outcome, done, raised}

pub data PredictionStatus : Type 0 where
  draft published settled voided : PredictionStatus

pub data PredictionMarket : Type 0 where
  moneyline totals spread both_teams_score double_chance corners_total corners_h2h :
      PredictionMarket

pub data PredictionOutcome : Type 0 where
  home away draw over under yes no home_draw home_away draw_away : PredictionOutcome

-- The two ends of a settlement.
pub data PredictionSettlement : Type 0 where
  as_settled as_voided : PredictionSettlement

abbrev pub is_draft : PredictionStatus → Bool
is_draft draft = true
is_draft _ = false

abbrev pub is_published : PredictionStatus → Bool
is_published published = true
is_published _ = false

abbrev pub prediction_settlement_status : PredictionSettlement → PredictionStatus
prediction_settlement_status as_settled = settled
prediction_settlement_status as_voided = voided

module _ (N : Numbers) where
  pub record ProbabilityBreakdown : Type 0 where
    pub implied : N.Num
    pub model : N.Num
    pub edge : N.Num
    pub line : Option N.Num

  pub record Prediction (Stamp : Type 0) : Type 0 where
    pub id : String
    pub fixture_id : String
    pub ai_run_id : Option String
    pub market : PredictionMarket
    pub outcome : PredictionOutcome
    pub status : PredictionStatus
    pub confidence : N.Num
    pub probabilities : ProbabilityBreakdown
    pub rationale : List String
    pub published_at : Option IsoDate
    pub settled_at : Option IsoDate
    pub created_at : Stamp
    pub updated_at : Stamp

  -- `confidence < 0 || confidence > 1`
  abbrev pub out_of_range : N.Num → Bool
  out_of_range c = N.ltb c (integer N 0) || N.ltb (integer N 1) c

  unfoldable pub create_prediction :
      Prediction (Option IsoDate) → IsoDate → Outcome (Prediction IsoDate)
  create_prediction input now =
      let timestamp = get_or input.created_at now in
      if out_of_range input.confidence
      then raised (record {
        message = "Prediction confidence must be between 0 and 1";
        code = "PREDICTION_INVALID_CONFIDENCE";
      })
      else done (record {
        id = input.id;
        fixture_id = input.fixture_id;
        ai_run_id = input.ai_run_id;
        market = input.market;
        outcome = input.outcome;
        status = input.status;
        confidence = input.confidence;
        probabilities = input.probabilities;
        rationale = input.rationale;
        published_at = input.published_at;
        settled_at = input.settled_at;
        created_at = timestamp;
        updated_at = get_or input.updated_at timestamp;
      })

  unfoldable pub publish_prediction : Prediction IsoDate → IsoDate → Outcome (Prediction IsoDate)
  publish_prediction prediction published_at =
      if not (is_draft prediction.status)
      then raised (record {
        message = join ("Prediction " ∷ prediction.id ∷ " is not in draft state" ∷ []);
        code = "PREDICTION_NOT_DRAFT";
      })
      else done (record prediction {
        status = published;
        published_at = some published_at;
        updated_at = published_at;
      })

  unfoldable pub settle_prediction :
      Prediction IsoDate → PredictionSettlement → IsoDate → Outcome (Prediction IsoDate)
  settle_prediction prediction status settled_at =
      if not (is_published prediction.status)
      then raised (record {
        message = join ("Prediction " ∷ prediction.id ∷ " is not published" ∷ []);
        code = "PREDICTION_NOT_PUBLISHED";
      })
      else done (record prediction {
        status = prediction_settlement_status status;
        settled_at = some settled_at;
        updated_at = settled_at;
      })
