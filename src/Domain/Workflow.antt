-- ===== src/Domain/Workflow.antt =====
-- The workflow of a fixture (packages/domain-core/src/entities/fixture-workflow.ts). The choices of
-- an operator have the types of the policies that read them. The argument of the creation is the
-- entity with its times, its id and three more properties optional.
use gana_v.Prelude.{ℕ, ◌+◌, String, Option, none, some, Bool, false, if◌then◌else◌, get_or, or_else}
use gana_v.Numbers.{Numbers, integer}
use gana_v.Queue.Task.{Payload}
use gana_v.Policy.Coverage.{SelectionOverride, no_override, ManualSelection, not_chosen}
use gana_v.Domain.Common.{IsoDate, Outcome, done, raised}

pub data StageStatus : Type 0 where
  pending running succeeded failed skipped blocked : StageStatus

pub data Stage : Type 0 where
  ingestion odds enrichment candidate prediction parlay validation : Stage

-- The seven statuses, each the value of a property.
pub record Statuses : Type 0 where
  pub ingestion_status : StageStatus
  pub odds_status : StageStatus
  pub enrichment_status : StageStatus
  pub candidate_status : StageStatus
  pub prediction_status : StageStatus
  pub parlay_status : StageStatus
  pub validation_status : StageStatus

-- The five times of stages: two pairs of stages share one.
pub record StageTimes : Type 0 where
  pub last_ingested_at : Option IsoDate
  pub last_enriched_at : Option IsoDate
  pub last_predicted_at : Option IsoDate
  pub last_parlay_at : Option IsoDate
  pub last_validated_at : Option IsoDate

-- `workflow[stageStatusKeyByStage[stage]]`, read and set
unfoldable pub status_of : Stage → Statuses → StageStatus
status_of ingestion s = s.ingestion_status
status_of odds s = s.odds_status
status_of enrichment s = s.enrichment_status
status_of candidate s = s.candidate_status
status_of prediction s = s.prediction_status
status_of parlay s = s.parlay_status
status_of validation s = s.validation_status

unfoldable pub set_status : Stage → StageStatus → Statuses → Statuses
set_status ingestion v s = record s { ingestion_status = v }
set_status odds v s = record s { odds_status = v }
set_status enrichment v s = record s { enrichment_status = v }
set_status candidate v s = record s { candidate_status = v }
set_status prediction v s = record s { prediction_status = v }
set_status parlay v s = record s { parlay_status = v }
set_status validation v s = record s { validation_status = v }

-- `workflow[stageTimestampKeyByStage[stage]]`, read and set
unfoldable pub time_of : Stage → StageTimes → Option IsoDate
time_of ingestion t = t.last_ingested_at
time_of odds t = t.last_ingested_at
time_of enrichment t = t.last_enriched_at
time_of candidate t = t.last_enriched_at
time_of prediction t = t.last_predicted_at
time_of parlay t = t.last_parlay_at
time_of validation t = t.last_validated_at

unfoldable pub set_time : Stage → IsoDate → StageTimes → StageTimes
set_time ingestion v t = record t { last_ingested_at = some v }
set_time odds v t = record t { last_ingested_at = some v }
set_time enrichment v t = record t { last_enriched_at = some v }
set_time candidate v t = record t { last_enriched_at = some v }
set_time prediction v t = record t { last_predicted_at = some v }
set_time parlay v t = record t { last_parlay_at = some v }
set_time validation v t = record t { last_validated_at = some v }

-- The types of the code leave "none" out of the status here, and out of the mode below.
pub record ManualSelectionInput : Type 0 where
  pub status : ManualSelection
  pub selected_by : String
  pub reason : Option String
  pub occurred_at : Option IsoDate

pub record SelectionOverrideInput : Type 0 where
  pub mode : SelectionOverride
  pub reason : Option String
  pub occurred_at : Option IsoDate

module _ (N : Numbers) where
  -- `Given A` is `A` in the entity, and `Option A` in the argument of the creation.
  pub record Workflow (Given : Type 0 → Type 0) : Type 0 where
    pub id : Given String
    pub fixture_id : String
    pub statuses : Statuses
    pub is_candidate : Bool
    pub min_detected_odd : Option N.Num
    pub quality_score : Option N.Num
    pub selection_score : Option N.Num
    pub times : StageTimes
    pub manual_selection_status : Given ManualSelection
    pub manual_selection_by : Option String
    pub manual_selection_reason : Option String
    pub manually_selected_at : Option IsoDate
    pub selection_override : Given SelectionOverride
    pub override_reason : Option String
    pub overridden_at : Option IsoDate
    pub error_count : Given ℕ
    pub last_error_message : Option String
    pub diagnostics : Option Payload
    pub created_at : Given IsoDate
    pub updated_at : Given IsoDate

  pub record StageInput : Type 0 where
    pub status : StageStatus
    pub occurred_at : Option IsoDate
    pub error_message : Option String
    pub is_candidate : Option Bool
    pub min_detected_odd : Option N.Num
    pub quality_score : Option N.Num
    pub selection_score : Option N.Num
    pub diagnostics : Option Payload

  abbrev pub Entity : Type 0
  Entity = Workflow (λ A. A)

  unfoldable pub create_fixture_workflow : Workflow Option → IsoDate → Entity
  create_fixture_workflow input now =
      let timestamp = get_or input.created_at now in
      record {
        id = get_or input.id input.fixture_id;
        fixture_id = input.fixture_id;
        statuses = input.statuses;
        is_candidate = input.is_candidate;
        min_detected_odd = input.min_detected_odd;
        quality_score = input.quality_score;
        selection_score = input.selection_score;
        times = input.times;
        manual_selection_status = get_or input.manual_selection_status not_chosen;
        manual_selection_by = input.manual_selection_by;
        manual_selection_reason = input.manual_selection_reason;
        manually_selected_at = input.manually_selected_at;
        selection_override = get_or input.selection_override no_override;
        override_reason = input.override_reason;
        overridden_at = input.overridden_at;
        error_count = get_or input.error_count 0;
        last_error_message = input.last_error_message;
        diagnostics = input.diagnostics;
        created_at = timestamp;
        updated_at = get_or input.updated_at timestamp;
      }

  -- `minDetectedOdd !== undefined && minDetectedOdd <= 0`
  unfoldable pub is_invalid_odd : Option N.Num → Bool
  is_invalid_odd none = false
  is_invalid_odd (some odd) = N.leb odd (integer N 0)

  unfoldable pub transition_stage : Entity → Stage → StageInput → IsoDate → Outcome Entity
  transition_stage workflow stage input now =
      let occurred_at = get_or input.occurred_at now in
      if is_invalid_odd input.min_detected_odd
      then raised (record {
        message = "minDetectedOdd must be greater than 0";
        code = "WORKFLOW_INVALID_MIN_ODD";
      })
      else done (record workflow {
        statuses = set_status stage input.status workflow.statuses;
        times = set_time stage occurred_at workflow.times;
        is_candidate = get_or input.is_candidate workflow.is_candidate;
        min_detected_odd = or_else input.min_detected_odd workflow.min_detected_odd;
        quality_score = or_else input.quality_score workflow.quality_score;
        selection_score = or_else input.selection_score workflow.selection_score;
        diagnostics = or_else input.diagnostics workflow.diagnostics;
        error_count = elim input.error_message [
          | none ↦ workflow.error_count
          | some e ↦ workflow.error_count + 1
        ];
        last_error_message = or_else input.error_message workflow.last_error_message;
        updated_at = occurred_at;
      })

  unfoldable pub apply_manual_selection : Entity → ManualSelectionInput → IsoDate → Entity
  apply_manual_selection workflow input now =
      let occurred_at = get_or input.occurred_at now in
      record workflow {
        manual_selection_status = input.status;
        manual_selection_by = some input.selected_by;
        manual_selection_reason = or_else input.reason workflow.manual_selection_reason;
        manually_selected_at = some occurred_at;
        updated_at = occurred_at;
      }

  unfoldable pub apply_selection_override : Entity → SelectionOverrideInput → IsoDate → Entity
  apply_selection_override workflow input now =
      let occurred_at = get_or input.occurred_at now in
      record workflow {
        selection_override = input.mode;
        override_reason = or_else input.reason workflow.override_reason;
        overridden_at = some occurred_at;
        updated_at = occurred_at;
      }
