-- ===== src/Parlays/Ticket.antt =====
-- The settlement of a parlay's ticket (packages/parlay-engine/src/index.ts).
use gana_v.Prelude.{
  ℕ, String, Bool, true, false, not, Option, none, some, List, [], ◌∷◌, if◌then◌else◌, get_or,
  or_else, length, keep, any, all, map,
}
use gana_v.Prelude.Texts.{str_eq}
use gana_v.Numbers.{Numbers, integer}
use gana_v.Domain.Common.{IsoDate, Outcome, done, ◌>>=◌}
use gana_v.Domain.Parlay.{
  LegStatus, pending, won, lost, as_settled, as_voided, ParlayLeg, Parlay, settle_parlay,
}

-- Every status of a leg but "pending".
pub data LegVerdict : Type 0 where
  leg_won leg_lost leg_voided : LegVerdict

abbrev pub leg_status : LegVerdict → LegStatus
leg_status leg_won = won
leg_status leg_lost = lost
leg_status leg_voided = LegStatus.voided

pub record LegSettlement : Type 0 where
  pub prediction_id : String
  pub status : LegVerdict

pub data TicketVerdict : Type 0 where
  ticket_pending ticket_won ticket_lost ticket_voided : TicketVerdict

abbrev pub is_pending_leg : LegStatus → Bool
is_pending_leg pending = true
is_pending_leg _ = false

abbrev pub is_lost : LegStatus → Bool
is_lost lost = true
is_lost _ = false

abbrev pub is_voided : LegStatus → Bool
is_voided LegStatus.voided = true
is_voided _ = false

-- `settlementMap.get(id)`: the last settlement of an id is the one in the map.
unfoldable pub settlement_of : String → List LegSettlement → Option LegVerdict
settlement_of id [] = none
settlement_of id (s ∷ ss) =
    or_else (settlement_of id ss) (if str_eq s.prediction_id id then some s.status else none)

-- `settlementMap.get(leg.predictionId) ?? "pending"`
abbrev pub status_for : Option LegVerdict → LegStatus
status_for none = pending
status_for (some v) = leg_status v

module _ (N : Numbers) where
  -- A settled leg is the leg with its status, which stands in it twice.
  unfoldable pub settle_leg : List LegSettlement → ParlayLeg N → ParlayLeg N
  settle_leg settlements leg = record leg {
    status = status_for (settlement_of leg.prediction_id settlements);
  }

  pub record SettledTicket : Type 0 where
    pub parlay : Parlay N IsoDate
    pub legs : List (ParlayLeg N)
    pub finalized : Bool
    pub verdict : TicketVerdict
    pub actual_payout : N.Num
    pub profit : N.Num
    pub graded_leg_count : ℕ

  abbrev pub graded : List (ParlayLeg N) → ℕ
  graded legs = length (keep (λ leg. not (is_pending_leg leg.status)) legs)

  -- `legs.reduce((product, leg) => product * (leg.status === "voided" ? 1 : leg.price), 1)`
  abbrev pub multiplier_from : N.Num → List (ParlayLeg N) → N.Num
  multiplier_from product [] = product
  multiplier_from product (leg ∷ legs) =
      multiplier_from (N.mul product (if is_voided leg.status then integer N 1 else leg.price)) legs

  unfoldable pub payout_multiplier : List (ParlayLeg N) → N.Num
  payout_multiplier legs =
      if any (λ leg. is_lost leg.status) legs
      then integer N 0
      else if all (λ leg. is_voided leg.status) legs
      then integer N 1
      else multiplier_from (integer N 1) legs

  unfoldable pub ticket_verdict : List (ParlayLeg N) → TicketVerdict
  ticket_verdict legs =
      if all (λ leg. is_voided leg.status) legs
      then ticket_voided
      else if any (λ leg. is_lost leg.status) legs
      then ticket_lost
      else ticket_won

  -- The ticket of a parlay whose legs all have a verdict.
  abbrev pub final_ticket : List (ParlayLeg N) → Parlay N IsoDate → SettledTicket
  final_ticket legs parlay =
      let payout = N.mul parlay.stake (payout_multiplier legs) in
      record {
        parlay = parlay;
        legs = legs;
        finalized = true;
        verdict = ticket_verdict legs;
        actual_payout = payout;
        profit = N.sub payout parlay.stake;
        graded_leg_count = graded legs;
      }

  abbrev pub pending_ticket : List (ParlayLeg N) → Parlay N IsoDate → SettledTicket
  pending_ticket legs parlay = record {
    parlay = record parlay { legs = legs };
    legs = legs;
    finalized = false;
    verdict = ticket_pending;
    actual_payout = integer N 0;
    profit = integer N 0;
    graded_leg_count = graded legs;
  }

  unfoldable pub settle_legs :
      Parlay N IsoDate → List (ParlayLeg N) → IsoDate → Outcome SettledTicket
  settle_legs parlay legs settled_at =
      if any (λ leg. is_pending_leg leg.status) legs
      then done (pending_ticket legs parlay)
      else (settle_parlay N parlay legs
            (if all (λ leg. is_voided leg.status) legs then as_voided else as_settled) settled_at
          >>= λ p. done (final_ticket legs p))

  unfoldable pub settle_parlay_ticket :
      Parlay N IsoDate → List LegSettlement → Option IsoDate → IsoDate → Outcome SettledTicket
  settle_parlay_ticket parlay settlements settled_at now =
      settle_legs parlay (map (settle_leg settlements) parlay.legs) (get_or settled_at now)
