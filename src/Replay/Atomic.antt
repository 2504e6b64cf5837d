-- ===== src/Replay/Atomic.antt =====
-- The settlement of one prediction (packages/validation-engine/src/index.ts). The logarithm and the
-- negation of a number are arguments beside the numbers, and a square is a product.
use gana_v.Prelude.{String, Bool, true, false, Option, List, if◌then◌else◌, get_or, any}
use gana_v.Numbers.{Numbers, integer}
use gana_v.Domain.Common.{IsoDate, Outcome, done, ◌>>=◌}
use gana_v.Domain.Prediction.{
  PredictionMarket, PredictionOutcome, home, away, draw, over, under, yes, no, home_draw, home_away,
  draw_away, as_settled, as_voided, Prediction, settle_prediction,
}

abbrev pub same_outcome : PredictionOutcome → PredictionOutcome → Bool
same_outcome home home = true
same_outcome away away = true
same_outcome draw draw = true
same_outcome over over = true
same_outcome under under = true
same_outcome yes yes = true
same_outcome no no = true
same_outcome home_draw home_draw = true
same_outcome home_away home_away = true
same_outcome draw_away draw_away = true
same_outcome _ _ = false

pub record MarketOutcome : Type 0 where
  pub fixture_id : String
  pub market : PredictionMarket
  pub winning_outcomes : List PredictionOutcome
  pub voided : Option Bool

pub data AtomicVerdict : Type 0 where
  atomic_won atomic_lost atomic_voided : AtomicVerdict

-- `Math.log` and unary minus
pub record Logarithms (N : Numbers) : Type 0 where
  pub log : N.Num → N.Num
  pub negate : N.Num → N.Num

module _ (N : Numbers) where
  pub record AtomicTicket : Type 0 where
    pub prediction : Prediction N IsoDate
    pub price : N.Num
    pub stake : Option N.Num

  pub record SettledAtomic : Type 0 where
    pub prediction : Prediction N IsoDate
    pub verdict : AtomicVerdict
    pub graded : Bool
    pub correct : Bool
    pub stake : N.Num
    pub actual_payout : N.Num
    pub profit : N.Num
    pub calibration_error : N.Num
    pub brier_score : N.Num
    pub log_loss : N.Num

  unfoldable pub clamp_probability : N.Num → N.Num
  clamp_probability value = N.least (N.literal 999999 6) (N.greatest (N.literal 1 6) value)

  -- `ticket.stake ?? 1`
  abbrev pub stake_of : AtomicTicket → N.Num
  stake_of ticket = get_or ticket.stake (integer N 1)

  -- A ticket without a grade: its stake is paid back.
  abbrev pub ungraded : AtomicTicket → Prediction N IsoDate → SettledAtomic
  ungraded ticket prediction = record {
    prediction = prediction;
    verdict = atomic_voided;
    graded = false;
    correct = false;
    stake = stake_of ticket;
    actual_payout = stake_of ticket;
    profit = integer N 0;
    calibration_error = integer N 0;
    brier_score = integer N 0;
    log_loss = integer N 0;
  }

  abbrev pub is_correct : AtomicTicket → MarketOutcome → Bool
  is_correct ticket outcome =
      any (λ o. same_outcome o ticket.prediction.outcome) outcome.winning_outcomes

  module _ (L : Logarithms N) where
    -- `Math.abs(difference)`
    abbrev absolute : N.Num → N.Num
    absolute x = if N.ltb x (integer N 0) then L.negate x else x

    abbrev pub graded_ticket : AtomicTicket → Prediction N IsoDate → Bool → SettledAtomic
    graded_ticket ticket prediction correct =
        let p = clamp_probability ticket.prediction.probabilities.model in
        let observed = if correct then integer N 1 else integer N 0 in
        let payout = if correct then N.mul (stake_of ticket) ticket.price else integer N 0 in
        record {
          prediction = prediction;
          verdict = if correct then atomic_won else atomic_lost;
          graded = true;
          correct = correct;
          stake = stake_of ticket;
          actual_payout = payout;
          profit = N.sub payout (stake_of ticket);
          calibration_error = absolute (N.sub p observed);
          brier_score = N.mul (N.sub p observed) (N.sub p observed);
          log_loss = L.negate (
              N.add (N.mul observed (L.log p))
                (N.mul (N.sub (integer N 1) observed) (L.log (N.sub (integer N 1) p))));
        }

    unfoldable pub settle_atomic_ticket :
        AtomicTicket → MarketOutcome → Option IsoDate → IsoDate → Outcome SettledAtomic
    settle_atomic_ticket ticket outcome settled_at now =
        let at = get_or settled_at now in
        if get_or outcome.voided false
        then (settle_prediction N ticket.prediction as_voided at >>= λ p. done (ungraded ticket p))
        else (settle_prediction N ticket.prediction as_settled at >>= λ p.
            done (graded_ticket ticket p (is_correct ticket outcome)))
