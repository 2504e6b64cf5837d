-- ===== src/Replay/Scorecard.antt =====
-- The card of scores of a validation: `buildValidationScorecard`
-- (packages/validation-engine/src/index.ts).
use gana_v.Prelude.{ℕ, Bool, true, false, List, if◌then◌else◌, length, keep, map, ◌==◌}
use gana_v.Numbers.{Numbers, integer}
use gana_v.Parlays.Candidate.{average, sum_from}
use gana_v.Parlays.Ticket.{TicketVerdict, ticket_won, ticket_lost, ticket_voided, SettledTicket}
use gana_v.Replay.Atomic.{AtomicVerdict, atomic_won, atomic_lost, atomic_voided, SettledAtomic}

abbrev pub is_atomic_won : AtomicVerdict → Bool
is_atomic_won atomic_won = true
is_atomic_won _ = false

abbrev pub is_atomic_lost : AtomicVerdict → Bool
is_atomic_lost atomic_lost = true
is_atomic_lost _ = false

abbrev pub is_atomic_voided : AtomicVerdict → Bool
is_atomic_voided atomic_voided = true
is_atomic_voided _ = false

abbrev pub is_ticket_won : TicketVerdict → Bool
is_ticket_won ticket_won = true
is_ticket_won _ = false

abbrev pub is_ticket_lost : TicketVerdict → Bool
is_ticket_lost ticket_lost = true
is_ticket_lost _ = false

abbrev pub is_ticket_voided : TicketVerdict → Bool
is_ticket_voided ticket_voided = true
is_ticket_voided _ = false

module _ (N : Numbers) where
  pub record ValidationScorecard : Type 0 where
    pub total_atomics : ℕ
    pub graded_atomics : ℕ
    pub atomic_wins : ℕ
    pub atomic_losses : ℕ
    pub atomic_voids : ℕ
    pub atomic_hit_rate : N.Num
    pub total_parlays : ℕ
    pub graded_parlays : ℕ
    pub parlay_wins : ℕ
    pub parlay_losses : ℕ
    pub parlay_voids : ℕ
    pub parlay_hit_rate : N.Num
    pub total_stake : N.Num
    pub total_profit : N.Num
    pub roi : N.Num
    pub average_calibration_error : N.Num
    pub average_brier_score : N.Num
    pub average_log_loss : N.Num

  -- `total === 0 ? 0 : part / total`
  abbrev pub rate : ℕ → ℕ → N.Num
  rate part total = if total == 0 then integer N 0 else N.div (integer N part) (integer N total)

  abbrev pub graded_of : List (SettledAtomic N) → List (SettledAtomic N)
  graded_of atomics = keep (λ a. a.graded) atomics

  abbrev pub finalized_of : List (SettledTicket N) → List (SettledTicket N)
  finalized_of parlays = keep (λ t. t.finalized) parlays

  abbrev total : List N.Num → N.Num
  total xs = sum_from N (integer N 0) xs

  unfoldable pub build_validation_scorecard :
      List (SettledAtomic N) → List (SettledTicket N) → ValidationScorecard
  build_validation_scorecard atomics parlays =
      let graded = graded_of atomics in
      let finalized = finalized_of parlays in
      let wins = length (keep (λ a. is_atomic_won a.verdict) graded) in
      let parlay_wins = length (keep (λ t. is_ticket_won t.verdict) finalized) in
      let stake =
        N.add (total (map (λ a. a.stake) atomics)) (total (map (λ t. t.parlay.stake) parlays)) in
      let profit =
        N.add (total (map (λ a. a.profit) atomics)) (total (map (λ t. t.profit) parlays)) in
      record {
        total_atomics = length atomics;
        graded_atomics = length graded;
        atomic_wins = wins;
        atomic_losses = length (keep (λ a. is_atomic_lost a.verdict) graded);
        atomic_voids = length (keep (λ a. is_atomic_voided a.verdict) atomics);
        atomic_hit_rate = rate wins (length graded);
        total_parlays = length parlays;
        graded_parlays = length finalized;
        parlay_wins = parlay_wins;
        parlay_losses = length (keep (λ t. is_ticket_lost t.verdict) finalized);
        parlay_voids = length (keep (λ t. is_ticket_voided t.verdict) finalized);
        parlay_hit_rate = rate parlay_wins (length finalized);
        total_stake = stake;
        total_profit = profit;
        roi = if N.eqb stake (integer N 0) then integer N 0 else N.div profit stake;
        average_calibration_error = average N (map (λ a. a.calibration_error) graded);
        average_brier_score = average N (map (λ a. a.brier_score) graded);
        average_log_loss = average N (map (λ a. a.log_loss) graded);
      }
