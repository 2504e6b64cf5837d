-- ===== src/Replay/Run.antt =====
-- The replay of a validation: `replayValidationRun` (packages/validation-engine/src/index.ts).
use gana_v.Prelude.{
  ℕ, String, Bool, true, false, Option, none, some, List, [], ◌∷◌, if◌then◌else◌, get_or, or_else,
  length, keep, ltb, ◌==◌,
}
use gana_v.Prelude.Texts.{str_eq, join, join_with}
use gana_v.Numbers.{Numbers, integer}
use gana_v.Domain.Common.{IsoDate, Outcome, done, ◌>>=◌}
use gana_v.Domain.Prediction.{PredictionMarket, PredictionStatus, settled, voided}
use gana_v.Domain.Parlay.{ParlayLeg, Parlay}
use gana_v.Domain.Validation.{
  ValidationStatus, ValidationTarget, sandbox_regression, ValidationCheck, Validation, Verdict,
  as_passed, as_failed, as_partial, create_validation, finalize_validation,
}
use gana_v.Parlays.Selection.{market_text}
use gana_v.Parlays.Ticket.{
  LegVerdict, leg_won, leg_lost, leg_voided, LegSettlement, SettledTicket, settle_parlay_ticket,
}
use gana_v.Replay.Atomic.{
  MarketOutcome, AtomicVerdict, atomic_won, atomic_lost, atomic_voided, Logarithms, AtomicTicket,
  SettledAtomic, ungraded, settle_atomic_ticket,
}
use gana_v.Replay.Scorecard.{ValidationScorecard, build_validation_scorecard}

abbrev pub outcome_key : String → PredictionMarket → String
outcome_key fixture_id market = join (fixture_id ∷ ":" ∷ market_text market ∷ [])

-- `outcomeIndex.get(key)`: the last outcome of a key is the one in the map.
unfoldable pub outcome_for : String → List MarketOutcome → Option MarketOutcome
outcome_for key [] = none
outcome_for key (o ∷ os) =
    or_else (outcome_for key os)
      (if str_eq (outcome_key o.fixture_id o.market) key then some o else none)

abbrev pub leg_verdict : AtomicVerdict → LegVerdict
leg_verdict atomic_won = leg_won
leg_verdict atomic_lost = leg_lost
leg_verdict atomic_voided = leg_voided

abbrev pub has_settled : PredictionStatus → Bool
has_settled settled = true
has_settled voided = true
has_settled _ = false

-- `checks.filter((check) => check.passed).length` against the three checks
unfoldable pub replay_status : List ValidationCheck → Verdict
replay_status checks =
    let passed = length (keep (λ c. c.passed) checks) in
    if passed == length checks then as_passed else if passed == 0 then as_failed else as_partial

module _ (N : Numbers) (L : Logarithms N) where
  pub record ReplayRequest : Type 0 where
    pub id : String
    pub atomics : List (AtomicTicket N)
    pub parlays : List (Parlay N IsoDate)
    pub outcomes : List MarketOutcome
    pub executed_at : Option IsoDate

  pub record ReplayResult : Type 0 where
    pub validation : Validation IsoDate
    pub atomics : List (SettledAtomic N)
    pub parlays : List (SettledTicket N)
    pub scorecard : ValidationScorecard N

  abbrev pub ticket_outcome : List MarketOutcome → AtomicTicket N → Option MarketOutcome
  ticket_outcome outcomes ticket =
      outcome_for (outcome_key ticket.prediction.fixture_id ticket.prediction.market) outcomes

  -- A ticket without an outcome stays ungraded, and its prediction as it was.
  abbrev pub settle_with :
      Option MarketOutcome → AtomicTicket N → Option IsoDate → IsoDate → Outcome (SettledAtomic N)
  settle_with none ticket at now = done (ungraded N ticket ticket.prediction)
  settle_with (some outcome) ticket at now = settle_atomic_ticket N L ticket outcome at now

  unfoldable pub settle_atomics :
      List MarketOutcome
      → List (AtomicTicket N)
      → Option IsoDate
      → IsoDate
      → Outcome (List (SettledAtomic N))
  settle_atomics outcomes [] at now = done []
  settle_atomics outcomes (t ∷ ts) at now =
      settle_with (ticket_outcome outcomes t) t at now >>= λ a.
      (settle_atomics outcomes ts at now >>= λ rest. done (a ∷ rest))

  -- `atomicSettlementByPrediction.get(id)`: the last settled one of an id
  unfoldable pub leg_settlement : List (SettledAtomic N) → String → Option LegSettlement
  leg_settlement [] id = none
  leg_settlement (a ∷ rest) id = or_else (leg_settlement rest id) (
      if has_settled a.prediction.status
      then if str_eq a.prediction.id id
        then some (record { prediction_id = id; status = leg_verdict a.verdict })
        else none
      else none)

  unfoldable pub leg_settlements : List (SettledAtomic N) → List (ParlayLeg N) → List LegSettlement
  leg_settlements atomics [] = []
  leg_settlements atomics (leg ∷ legs) =
      let rest = leg_settlements atomics legs in
      elim (leg_settlement atomics leg.prediction_id) [ none ↦ rest | some s ↦ s ∷ rest ]

  unfoldable pub settle_parlays :
      List (SettledAtomic N)
      → List (Parlay N IsoDate)
      → Option IsoDate
      → IsoDate
      → Outcome (List (SettledTicket N))
  settle_parlays atomics [] at now = done []
  settle_parlays atomics (p ∷ ps) at now =
      settle_parlay_ticket N p (leg_settlements atomics p.legs) at now >>= λ t.
      (settle_parlays atomics ps at now >>= λ rest. done (t ∷ rest))

  -- The tickets that have no outcome.
  abbrev pub missing : List MarketOutcome → List (AtomicTicket N) → ℕ
  missing outcomes tickets =
      length (keep (λ t. elim (ticket_outcome outcomes t) [ none ↦ true | some o ↦ false ]) tickets)

  abbrev count : ℕ → String
  count n = N.to_string (integer N n)

  unfoldable pub replay_checks : ℕ → ValidationScorecard N → ℕ → List ValidationCheck
  replay_checks missing_count card parlay_count =
      record {
        code = "OUTCOME_COVERAGE";
        message =
            if missing_count == 0
            then "All atomic tickets had a market outcome"
            else join ("Missing outcomes for " ∷ count missing_count ∷ " atomic tickets" ∷ []);
        passed = missing_count == 0;
      }
      ∷ record {
        code = "ATOMIC_SAMPLE";
        message = join ("Graded " ∷ count card.graded_atomics ∷ " atomic predictions" ∷ []);
        passed = ltb 0 card.graded_atomics;
      }
      ∷ record {
        code = "PARLAY_FINALIZATION";
        message = join ("Finalized " ∷ count card.graded_parlays ∷ " parlays" ∷ []);
        passed = card.graded_parlays == parlay_count;
      }
      ∷ []

  abbrev pub replay_summary : ValidationScorecard N → String
  replay_summary card = join_with " | " (
      join (count card.graded_atomics ∷ "/" ∷ count card.total_atomics ∷ " atomics graded" ∷ [])
      ∷ join
          (count card.graded_parlays ∷ "/" ∷ count card.total_parlays ∷ " parlays finalized" ∷ [])
      ∷ join ("ROI " ∷ N.to_fixed card.roi 3 ∷ [])
      ∷ [])

  abbrev pub pending_validation : ReplayRequest → IsoDate → Validation IsoDate
  pending_validation request now =
      create_validation
        (record {
          id = request.id;
          target_type = ValidationTarget.sandbox_namespace;
          target_id = request.id;
          kind = sandbox_regression;
          status = ValidationStatus.pending;
          checks = [];
          summary = "";
          executed_at = none;
          created_at = request.executed_at;
          updated_at = none;
        })
        now

  unfoldable pub replay_validation_run : ReplayRequest → IsoDate → Outcome ReplayResult
  replay_validation_run request now =
      settle_atomics request.outcomes request.atomics request.executed_at now >>= λ atomics.
      (settle_parlays atomics request.parlays request.executed_at now >>= λ parlays.
      (let card = build_validation_scorecard N atomics parlays in
        let checks =
          replay_checks (missing request.outcomes request.atomics) card (length request.parlays) in
        finalize_validation (pending_validation request now) (replay_status checks) checks
          (replay_summary card) (get_or request.executed_at now)
        >>= λ v.
            done
              (record { validation = v; atomics = atomics; parlays = parlays; scorecard = card })))
