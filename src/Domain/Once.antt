-- ===== src/Domain/Once.antt =====
-- Each entity is settled once (packages/domain-core/src/entities/prediction.ts, parlay.ts,
-- validation.ts and ai-run.ts).
use gana_v.Prelude.{String, ◌≡◌, List, false, arith}
use gana_v.Numbers.{Numbers}
use gana_v.Domain.Common.{IsoDate, ◌>>=◌, is_done}
use gana_v.Domain.Prediction.{
  PredictionSettlement, Prediction, is_published, publish_prediction, settle_prediction,
}
use gana_v.Domain.Parlay.{ParlaySettlement, ParlayLeg, Parlay, can_settle, settle_parlay}
use gana_v.Domain.Validation.{Validation, Verdict, ValidationCheck, is_pending, finalize_validation}
use gana_v.Domain.AiRun.{AiRun, AiSettlement, AiRunDetails, is_unsettled, settle_ai_run}

module _ (N : Numbers) where
  prediction_once :
      (p : Prediction N IsoDate) (s r : PredictionSettlement) (at later : IsoDate)
      → (is_done (settle_prediction N p s at) ≡ is_published p.status)
        × (is_done (settle_prediction N p s at >>= λ q. publish_prediction N q later) ≡ false)
        × (is_done (settle_prediction N p s at >>= λ q. settle_prediction N q r later) ≡ false)
  unfolding publish_prediction settle_prediction
  prediction_once p s r at later = (ground arith, ground arith, ground arith)

  parlay_once :
      (p : Parlay N IsoDate) (legs more : List (ParlayLeg N)) (s r : ParlaySettlement)
      (at later : IsoDate)
      → (is_done (settle_parlay N p legs s at) ≡ can_settle p.status)
        × (is_done (settle_parlay N p legs s at >>= λ q. settle_parlay N q more r later) ≡ false)
  unfolding settle_parlay
  parlay_once p legs more s r at later = (ground arith, ground arith)

validation_once :
    (v : Validation IsoDate) (s r : Verdict) (checks more : List ValidationCheck)
    (summary other : String) (at later : IsoDate)
    → (is_done (finalize_validation v s checks summary at) ≡ is_pending v.status)
      × (is_done (
            finalize_validation v s checks summary at >>= λ w.
            finalize_validation w r more other later)
          ≡ false)
unfolding finalize_validation
validation_once v s r checks more summary other at later = (ground arith, ground arith)

ai_run_once :
    (a : AiRun IsoDate) (s r : AiSettlement) (d e : AiRunDetails) (at later : IsoDate)
    → (is_done (settle_ai_run a s d at) ≡ is_unsettled a.status)
      × (is_done (settle_ai_run a s d at >>= λ b. settle_ai_run b r e later) ≡ false)
unfolding settle_ai_run
ai_run_once a s r d e at later = (ground arith, ground arith)

-- What is settled is final. A published prediction, a parlay that is ready or submitted, a pending
-- validation and an AI run that is pending or running can be settled, and nothing else can; and after
-- a settlement that returns, a further one throws, whatever it would set, and so does publishing the
-- prediction again.
pub settled_once :
    (N : Numbers) (p : Prediction N IsoDate) (l : Parlay N IsoDate) (v : Validation IsoDate)
    (a : AiRun IsoDate) (ps pr : PredictionSettlement) (ls lr : ParlaySettlement) (vs vr : Verdict)
    (xs ar : AiSettlement) (legs more : List (ParlayLeg N)) (cs ds : List ValidationCheck)
    (summary other : String) (d e : AiRunDetails) (at later : IsoDate)
    → ((is_done (settle_prediction N p ps at) ≡ is_published p.status)
        × (is_done (settle_prediction N p ps at >>= λ q. publish_prediction N q later) ≡ false)
        × (is_done (settle_prediction N p ps at >>= λ q. settle_prediction N q pr later) ≡ false))
      × ((is_done (settle_parlay N l legs ls at) ≡ can_settle l.status)
          × (is_done (settle_parlay N l legs ls at >>= λ q. settle_parlay N q more lr later)
              ≡ false))
      × ((is_done (finalize_validation v vs cs summary at) ≡ is_pending v.status)
          × (is_done (
                finalize_validation v vs cs summary at >>= λ w.
                finalize_validation w vr ds other later)
              ≡ false))
      × ((is_done (settle_ai_run a xs d at) ≡ is_unsettled a.status)
          × (is_done (settle_ai_run a xs d at >>= λ b. settle_ai_run b ar e later) ≡ false))
settled_once N p l v a ps pr ls lr vs vr xs ar legs more cs ds summary other d e at later = (
  prediction_once N p ps pr at later,
  parlay_once N l legs more ls lr at later,
  validation_once v vs vr cs ds summary other at later,
  ai_run_once a xs ar d e at later,
)
