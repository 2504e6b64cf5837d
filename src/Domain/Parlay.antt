-- ===== src/Domain/Parlay.antt =====
-- Parlays (packages/domain-core/src/entities/parlay.ts). The argument of the creation differs from
-- the entity in its times, which may be missing.
use gana_v.Prelude.{
  String, Option, some, List, [], ◌∷◌, Bool, true, false, not, ◌==◌, if◌then◌else◌, get_or, length,
}
use gana_v.Prelude.Texts.{join}
use gana_v.Numbers.{Numbers}
use gana_v.Domain.Common.{IsoDate, Outcome, done, raised}

pub data ParlayStatus : Type 0 where
  draft ready submitted settled voided : ParlayStatus

pub data LegStatus : Type 0 where
  pending won lost voided : LegStatus

pub data ParlaySource : Type 0 where
  manual automatic : ParlaySource

pub data ParlaySettlement : Type 0 where
  as_settled as_voided : ParlaySettlement

abbrev pub parlay_settlement_status : ParlaySettlement → ParlayStatus
parlay_settlement_status as_settled = settled
parlay_settlement_status as_voided = ParlayStatus.voided

abbrev pub parlay_status_text : ParlayStatus → String
parlay_status_text draft = "draft"
parlay_status_text ready = "ready"
parlay_status_text submitted = "submitted"
parlay_status_text settled = "settled"
parlay_status_text voided = "voided"

-- `submitted` or `ready`
abbrev pub can_settle : ParlayStatus → Bool
can_settle submitted = true
can_settle ready = true
can_settle _ = false

module _ (N : Numbers) where
  pub record ParlayLeg : Type 0 where
    pub prediction_id : String
    pub fixture_id : String
    pub market : String
    pub outcome : String
    pub price : N.Num
    pub status : LegStatus

  pub record Parlay (Stamp : Type 0) : Type 0 where
    pub id : String
    pub status : ParlayStatus
    pub stake : N.Num
    pub source : ParlaySource
    pub legs : List ParlayLeg
    pub correlation_score : N.Num
    pub expected_payout : N.Num
    pub submitted_at : Option IsoDate
    pub settled_at : Option IsoDate
    pub created_at : Stamp
    pub updated_at : Stamp

  unfoldable pub create_parlay : Parlay (Option IsoDate) → IsoDate → Outcome (Parlay IsoDate)
  create_parlay input now =
      let timestamp = get_or input.created_at now in
      if length input.legs == 0
      then raised (record { message = "A parlay requires at least one leg"; code = "PARLAY_EMPTY" })
      else done (record {
        id = input.id;
        status = input.status;
        stake = input.stake;
        source = input.source;
        legs = input.legs;
        correlation_score = input.correlation_score;
        expected_payout = input.expected_payout;
        submitted_at = input.submitted_at;
        settled_at = input.settled_at;
        created_at = timestamp;
        updated_at = get_or input.updated_at timestamp;
      })

  unfoldable pub settle_parlay :
      Parlay IsoDate → List ParlayLeg → ParlaySettlement → IsoDate → Outcome (Parlay IsoDate)
  settle_parlay parlay legs status settled_at =
      if not (can_settle parlay.status)
      then raised (record {
        message = join (
            "Parlay "
            ∷ parlay.id
            ∷ " cannot be settled from "
            ∷ parlay_status_text parlay.status
            ∷ []);
        code = "PARLAY_INVALID_SETTLEMENT";
      })
      else done (record parlay {
        legs = legs;
        status = parlay_settlement_status status;
        settled_at = some settled_at;
        updated_at = settled_at;
      })
