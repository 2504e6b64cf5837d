-- ===== src/Replay/Tests.antt =====
-- The replay of a validation (packages/validation-engine/src/index.ts) on a small input.
use gana_v.Prelude.{◌+◌, ◌≡◌, refl, none, some, [], ◌∷◌, length, keep, any, all, All}
use gana_v.Numbers.Decimal.{decimal}
use gana_v.Domain.Common.{IsoDate, done}
use gana_v.Domain.Prediction.{PredictionStatus, Prediction, moneyline, home, settle_prediction}
use gana_v.Domain.Validation.{create_validation, finalize_validation}
use gana_v.Replay.Atomic.{MarketOutcome, Logarithms, settle_atomic_ticket}
use gana_v.Replay.Scorecard.{build_validation_scorecard}
use gana_v.Replay.Run.{
  ReplayRequest, ReplayResult, outcome_for, settle_atomics, settle_parlays, replay_checks,
  replay_status, replay_validation_run,
}
use gana_v.Replay.Coverage.{has_outcome}
use gana_v.Replay.Settled.{IsGraded}
use gana_v.Replay.Checks.{together, replay-status}

-- Stand-ins: the theorem assumes nothing of the logarithm.
abbrev logarithms : Logarithms decimal
logarithms = record { log = λ x. x; negate = λ x. x }

abbrev published : Prediction decimal IsoDate
published = record {
  id = "p-1";
  fixture_id = "fx-1";
  ai_run_id = none;
  market = moneyline;
  outcome = home;
  status = PredictionStatus.published;
  confidence = 6000;
  probabilities = record { implied = 5000; model = 6000; edge = 1000; line = none };
  rationale = [];
  published_at = some "a";
  settled_at = none;
  created_at = "a";
  updated_at = "a";
}

abbrev home_won : MarketOutcome
home_won = record {
  fixture_id = "fx-1";
  market = moneyline;
  winning_outcomes = home ∷ [];
  voided = none;
}

abbrev request : ReplayRequest decimal logarithms
request = record {
  id = "replay-1";
  atomics = record { prediction = published; price = 20000; stake = none } ∷ [];
  parlays = [];
  outcomes = home_won ∷ [];
  executed_at = some "b";
}

replayed :
    (r : ReplayResult decimal logarithms) × (replay_validation_run decimal logarithms request "c"
      ≡ done r)
unfolding replay_validation_run settle_atomics outcome_for settle_atomic_ticket settle_prediction
    settle_parlays build_validation_scorecard replay_checks replay_status create_validation
    finalize_validation
replayed = (_, refl)

replay-status_example :
    ((replayed.0).validation.status
      ≡ together
          (all (has_outcome decimal logarithms request.outcomes) request.atomics)
          (any (λ a. a.graded) (replayed.0).atomics)
          (all (λ t. t.finalized) (replayed.0).parlays))
    × (length (replayed.0).atomics ≡ length request.atomics)
    × (length (replayed.0).parlays ≡ length request.parlays)
    × All (IsGraded decimal) (replayed.0).atomics
    × ((replayed.0).scorecard.graded_parlays
        ≡ length (keep (λ t. t.finalized) (replayed.0).parlays))
    × (length request.atomics
        ≡ (replayed.0).scorecard.graded_atomics + (replayed.0).scorecard.atomic_voids)
    × ((replayed.0).scorecard.graded_atomics
        ≡ (replayed.0).scorecard.atomic_wins + (replayed.0).scorecard.atomic_losses)
replay-status_example = replay-status decimal logarithms request "c" replayed.0 replayed.1
