-- ===== src/ControlPlane/Dispatcher/Work.antt =====
-- The work of a claim (packages/control-plane-runtime/src/dispatcher.ts). The workers are arguments:
-- each goes from a state of the queue, which it may change, to what it returns or the message of what
-- it throws. The heartbeats that renew a lease while a worker runs are changes of the worker.
use gana_v.Prelude.{
  ℕ, String, Bool, Option, none, some, List, [], ◌∷◌, get_or, or_else, if◌then◌else◌,
}
use gana_v.Prelude.Texts.{truthy, join}
use gana_v.Queue.Task.{TaskKind, Value, Payload, Time, Task, Claim}
use gana_v.Queue.Lifecycle.{as_optional_string, property}
use gana_v.Queue.Store.{Platform}
use gana_v.ControlPlane.Adapter.{TaskQueue}
use gana_v.Orchestration.Dispatch.{ExecutionStatus, succeeded, failed, cancelled}
use gana_v.Orchestration.Envelope.{
  WorkflowIntent, ingest_fixtures, ingest_odds, Envelope, create_task_envelope,
}
use gana_v.ControlPlane.Dispatcher.{payload_text, payload_fixture_id}

-- What a call returns, or the message of what it throws.
pub data Work (A : Type 0) : Type 0 where
  output : A → Work A
  thrown : String → Work A

-- What the code reads of the result of the ingestion runtime, and of the research of a fixture.
pub record IngestionResult : Type 0 where
  pub status : ExecutionStatus
  pub error : Option String
  pub output : Option Payload

pub record ResearchResult : Type 0 where
  pub bundle_id : String
  pub bundle_status : String
  pub recommended_lean : String
  pub ai_run_id : Option String

-- What the publisher returns, or the message of what it throws.
pub record Publication : Type 0 where
  pub is_persisted : Bool
  pub generated_at : Time
  pub candidate_count : ℕ
  pub loaded_prediction_count : ℕ
  pub selected_prediction_ids : List String

pub data ParlayOutcome : Type 0 where
  not_published : ParlayOutcome
  published : Publication → ParlayOutcome
  publisher_error : String → ParlayOutcome

pub record Workers (q : TaskQueue) : Type 0 where
  pub ingest : Envelope → q.State → Work IngestionResult × q.State
  pub has_fixture : String → q.State → Bool
  pub research : String → Time → q.State → Work ResearchResult × q.State
  pub score_fixture : String → String → Time → q.State → Work Payload × q.State
  pub validate : Time → q.State → Work Payload × q.State
  pub replay_sandbox : String → String → String → Time → q.State → Work Payload × q.State
  pub publish : List String → Time → q.State → ParlayOutcome × q.State

-- `task.workflowId ?? asOptionalString(task.payload.workflowId)`, and so on
abbrev pub field_or_payload : Option String → String → Task → Option String
field_or_payload given key task = or_else given (payload_text key task)

abbrev pub source_of : Task → String
source_of task = get_or (field_or_payload task.source "source" task) "hermes-dispatcher"

abbrev pub ingestion_intent : TaskKind → WorkflowIntent
ingestion_intent TaskKind.fixture_ingestion = ingest_fixtures
ingestion_intent _ = ingest_odds

-- The envelope of an ingestion task, whose `createdAt` is given.
unfoldable pub ingestion_envelope : Platform → Task → Envelope
unfolding create_task_envelope as_optional_string property
ingestion_envelope p task =
    create_task_envelope p
      (get_or (field_or_payload task.workflow_id "workflowId" task)
        (join (task.id ∷ ":workflow" ∷ [])))
      (get_or (field_or_payload task.trace_id "traceId" task) (join (task.id ∷ ":trace" ∷ [])))
      (ingestion_intent task.kind)
      (record {
        task_kind = task.kind;
        payload = task.payload;
        scheduled_for = get_or task.scheduled_for task.created_at;
        priority = some task.priority;
        created_at = some task.created_at;
        policy = none;
        metadata = record {
          source = source_of task;
          labels = [];
          correlation_id = truthy (field_or_payload task.correlation_id "correlationId" task);
        };
      })
      task.created_at

abbrev pub execution_status_name : ExecutionStatus → String
execution_status_name succeeded = "succeeded"
execution_status_name failed = "failed"
execution_status_name cancelled = "cancelled"

abbrev pub ingestion_error : String → IngestionResult → String
ingestion_error task_id result = get_or result.error (
    join (
      "Ingestion task "
      ∷ task_id
      ∷ " finished with status "
      ∷ execution_status_name result.status
      ∷ []))

abbrev pub ingestion_output : String → Work IngestionResult → Work Payload
ingestion_output task_id (thrown message) = thrown message
ingestion_output task_id (output result) = elim result.status [
  | succeeded ↦ output (get_or result.output [])
  | _ ↦ thrown (ingestion_error task_id result)
]

abbrev pub ai_run_member : Option String → Payload
ai_run_member none = []
ai_run_member (some id) = ("aiRunId", Value.text id) ∷ []

abbrev pub research_output : String → Work ResearchResult → Work Payload
research_output fixture_id (thrown message) = thrown message
research_output fixture_id (output result) = output (
    ("fixtureId", Value.text fixture_id)
    ∷ ("bundleId", Value.text result.bundle_id)
    ∷ ("bundleStatus", Value.text result.bundle_status)
    ∷ ("recommendedLean", Value.text result.recommended_lean)
    ∷ ai_run_member result.ai_run_id)

abbrev pub replay_output : String → String → String → Work Payload → Work Payload
replay_output profile pack sha (thrown message) = thrown message
replay_output profile pack sha (output materialized) = output (
    ("mode", Value.text "replay")
    ∷ ("packId", Value.text pack)
    ∷ ("profileName", Value.text profile)
    ∷ ("gitSha", Value.text sha)
    ∷ materialized)

-- What a call returns goes through `f`, and the state stays as the call left it.
abbrev pub map_work : {A B S : Type 0} → (A → B) → A × S → B × S
map_work f (a, s) = (f a, s)

module _ (p : Platform) (q : TaskQueue) (w : Workers q) (now : Time) where
  abbrev pub ingestion_work : Task → q.State → Work Payload × q.State
  ingestion_work task s =
      map_work (ingestion_output task.id) (w.ingest (ingestion_envelope p task) s)

  abbrev pub research_work : Option String → q.State → Work Payload × q.State
  research_work none s = (thrown "Unsupported dispatcher task kind: research", s)
  research_work (some fixture_id) s =
      if w.has_fixture fixture_id s
      then map_work (research_output fixture_id) (w.research fixture_id now s)
      else (thrown (join ("Fixture not found for research task: " ∷ fixture_id ∷ [])), s)

  abbrev pub prediction_work : Option String → String → q.State → Work Payload × q.State
  prediction_work none task_id s = (thrown "Unsupported dispatcher task kind: prediction", s)
  prediction_work (some fixture_id) task_id s = w.score_fixture fixture_id task_id now s

  abbrev pub replay_work :
      Option String → Option String → Option String → q.State → Work Payload × q.State
  replay_work (some profile) (some pack) (some sha) s =
      map_work (replay_output profile pack sha) (w.replay_sandbox profile pack sha now s)
  replay_work _ _ _ s =
      (thrown "sandbox-replay payload requires profileName, packId, and gitSha", s)

  -- The callback of `executeWithLeaseHeartbeat`.
  unfoldable pub work : Claim → q.State → Work Payload × q.State
  unfolding payload_fixture_id as_optional_string property ingestion_envelope
  work c s = elim c.task.kind [
    | TaskKind.fixture_ingestion ↦ ingestion_work c.task s
    | TaskKind.odds_ingestion ↦ ingestion_work c.task s
    | TaskKind.research ↦ research_work (payload_fixture_id c.task) s
    | TaskKind.prediction ↦ prediction_work (payload_fixture_id c.task) c.task.id s
    | TaskKind.validation ↦ w.validate now s
    | TaskKind.sandbox_replay ↦
        replay_work (payload_text "profileName" c.task) (payload_text "packId" c.task)
          (payload_text "gitSha" c.task) s
  ]
