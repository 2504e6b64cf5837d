-- ===== src/Parlays/Tests.antt =====
-- Parlays (packages/parlay-engine/src/index.ts) on small inputs.
use mathlib.Core.List.{Perm}
use gana_v.Prelude.{◌≤◌, ◌≡◌, refl, ◌||◌, none, some, List, [], ◌∷◌, ◌++◌, map, length}
use gana_v.Prelude.Texts.{str_eq, join}
use gana_v.Prelude.Sort.{sort}
use gana_v.Prelude.Unique.{Differ}
use gana_v.Numbers.Decimal.{decimal}
use gana_v.Domain.Common.{IsoDate, done, is_done}
use gana_v.Domain.Prediction.{moneyline, totals, PredictionMarket, PredictionOutcome, home, over}
use gana_v.Domain.Parlay.{
  Parlay, ParlayStatus, ParlaySource, LegStatus, can_settle, create_parlay, settle_parlay,
}
use gana_v.Parlays.Candidate.{
  Candidate, validate_atomic_candidate, score_atomic_candidate, score_all, ranked_before, clamp,
  to_candidate_score, to_edge, to_implied_probability,
}
use gana_v.Parlays.Selection.{market_text, outcome_text, consider, consider_all}
use gana_v.Parlays.Legs.{turned_down}
use gana_v.Parlays.Build.{
  BuildInput, BuildResult, max_legs_of, scorecard_of, build_selected, build_parlay_from_candidates,
}
use gana_v.Parlays.Built.{IsBuilt, build-parlay}
use gana_v.Parlays.Ticket.{
  LegSettlement, leg_won, leg_lost, SettledTicket, settlement_of, settle_leg, settle_legs,
  settle_parlay_ticket,
}
use gana_v.Parlays.Settled.{AreSettled}
use gana_v.Parlays.Verdicts.{some_pending, IsAccount, ticket-IsAccount, ticket-throws}

abbrev pick : PredictionMarket → PredictionOutcome → Candidate decimal
pick market outcome = record {
  prediction_id = "p-1";
  fixture_id = "fx-1";
  market = market;
  outcome = outcome;
  price = 20000;
  confidence = 6000;
  model_probability = 6000;
  implied_probability = none;
  edge = none;
  competition = none;
  team_keys = none;
  tags = none;
}

-- The second has the prediction of the first.
abbrev input : BuildInput decimal
input = record {
  policy = record { min_legs = some 1; max_legs = none; max_correlation_score = none };
  id = "par-1";
  stake = 100000;
  source = ParlaySource.automatic;
  candidates = pick moneyline home ∷ pick totals over ∷ [];
  created_at = none;
}

built : (r : BuildResult decimal) × (build_parlay_from_candidates decimal input "a" ≡ done r)
unfolding build_parlay_from_candidates score_all score_atomic_candidate validate_atomic_candidate
    sort ranked_before consider_all consider build_selected create_parlay scorecard_of
    to_candidate_score to_edge to_implied_probability clamp
built = (_, refl)

build-parlay_example :
    (length (built.0).selected_candidates ≤ max_legs_of decimal input.policy)
    × Differ str_eq (map (λ c. c.prediction_id) (built.0).selected_candidates)
    × Differ str_eq (
        map
          (λ c.
            join (c.fixture_id ∷ ":" ∷ market_text c.market ∷ ":" ∷ outcome_text c.outcome ∷ []))
          (built.0).selected_candidates)
    × Perm
        ((built.0).selected_candidates ++ turned_down decimal (built.0).rejected_candidates)
        input.candidates
    × IsBuilt decimal input built.0
build-parlay_example = build-parlay decimal input "a" built.0 built.1

abbrev two_legs : Parlay decimal IsoDate
two_legs = record {
  id = "par-1";
  status = ParlayStatus.submitted;
  stake = 100000;
  source = ParlaySource.manual;
  legs =
      record {
        prediction_id = "p-1";
        fixture_id = "fx-1";
        market = "moneyline";
        outcome = "home";
        price = 20000;
        status = LegStatus.pending;
      }
      ∷ record {
        prediction_id = "p-2";
        fixture_id = "fx-2";
        market = "totals";
        outcome = "over";
        price = 15000;
        status = LegStatus.pending;
      }
      ∷ [];
  correlation_score = 0;
  expected_payout = 300000;
  submitted_at = none;
  settled_at = none;
  created_at = "a";
  updated_at = "a";
}

abbrev verdicts : List LegSettlement
verdicts =
    record { prediction_id = "p-1"; status = leg_lost }
    ∷ record { prediction_id = "p-1"; status = leg_won }
    ∷ record { prediction_id = "p-2"; status = leg_won }
    ∷ []

ticket :
    (t : SettledTicket decimal) × (settle_parlay_ticket decimal two_legs verdicts none "b" ≡ done t)
unfolding settle_parlay_ticket settle_legs settle_leg settlement_of settle_parlay
ticket = (_, refl)

ticket-IsAccount_example :
    AreSettled decimal verdicts two_legs.legs (ticket.0).legs × IsAccount decimal two_legs ticket.0
ticket-IsAccount_example = ticket-IsAccount decimal two_legs verdicts none "b" ticket.0 ticket.1

test-ticket_throws : is_done (settle_parlay_ticket decimal two_legs verdicts none "b") ≡ (
    some_pending decimal (map (settle_leg decimal verdicts) two_legs.legs)
    || can_settle two_legs.status)
test-ticket_throws = ticket-throws decimal two_legs verdicts none "b"
