-- ===== src/Queue/Enqueue.antt =====
-- `enqueue` of the in-memory adapter (packages/queue-adapters/src/index.ts). The time `now` is an
-- argument: where the caller leaves it out, the code reads the clock.
use gana_v.Prelude.{ℕ, String, Option, none, [], ◌∷◌, get_or, or_else}
use gana_v.Prelude.Texts.{truthy}
use gana_v.Queue.Task.{TaskStatus, TaskKind, TriggerKind, Value, Members, Payload, Time, Task}
use gana_v.Queue.Lifecycle.{as_optional_string, property}
use gana_v.Queue.Store.{Platform, compute_opaque_id, Exec, save_task}

-- The arguments of `createTask`, where a field may be missing.
pub record TaskInput : Type 0 where
  pub id : String
  pub kind : TaskKind
  pub status : TaskStatus
  pub priority : ℕ
  pub manifest_id : Option String
  pub workflow_id : Option String
  pub trace_id : Option String
  pub correlation_id : Option String
  pub source : Option String
  pub payload : Payload
  pub scheduled_for : Option Time
  pub max_attempts : Option ℕ
  pub created_at : Time
  pub updated_at : Time

unfoldable pub create_task : TaskInput → Task
create_task input = record {
  id = input.id;
  kind = input.kind;
  status = input.status;
  trigger_kind = TriggerKind.system;
  priority = input.priority;
  dedupe_key = none;
  manifest_id = truthy input.manifest_id;
  workflow_id = truthy input.workflow_id;
  trace_id = truthy input.trace_id;
  correlation_id = truthy input.correlation_id;
  source = truthy input.source;
  payload = input.payload;
  attempts = [];
  scheduled_for = input.scheduled_for;
  max_attempts = get_or input.max_attempts 3;
  last_error_message = none;
  lease_owner = none;
  lease_expires_at = none;
  claimed_at = none;
  last_heartbeat_at = none;
  active_task_run_id = none;
  created_at = input.created_at;
  updated_at = input.updated_at;
}

pub record EnqueueInput : Type 0 where
  pub id : Option String
  pub kind : TaskKind
  pub payload : Payload
  pub priority : Option ℕ
  pub manifest_id : Option String
  pub workflow_id : Option String
  pub trace_id : Option String
  pub correlation_id : Option String
  pub source : Option String
  pub scheduled_for : Option Time
  pub max_attempts : Option ℕ

abbrev pub kind_name : TaskKind → String
kind_name TaskKind.fixture_ingestion = "fixture-ingestion"
kind_name TaskKind.odds_ingestion = "odds-ingestion"
kind_name TaskKind.research = "research"
kind_name TaskKind.prediction = "prediction"
kind_name TaskKind.validation = "validation"
kind_name TaskKind.sandbox_replay = "sandbox-replay"

abbrev pub members_of : Payload → Members
members_of [] = Members.no_members
members_of ((k, v) ∷ rest) = Members.member k v (members_of rest)

-- The id of a new task: the given one, or a digest of what the task is.
unfoldable pub enqueue_id : Platform → EnqueueInput → Time → String
unfolding compute_opaque_id
enqueue_id p input now = get_or input.id (
    compute_opaque_id p "tsk" (
      p.json_stringify (
        Value.object (
          members_of (
            ("kind", Value.text (kind_name input.kind))
            ∷ ("payload", Value.object (members_of input.payload))
            ∷ ("now", Value.text (p.to_iso_string now))
            ∷ ("priority", Value.number (get_or input.priority 50))
            ∷ [])))))

-- `input.name ?? asOptionalString(payload.name)`
unfoldable pub from_payload : Option String → String → Payload → Option String
unfolding as_optional_string property
from_payload given name payload = or_else given (as_optional_string (property name payload))

unfoldable pub enqueue : Platform → EnqueueInput → Time → Exec Task
unfolding create_task enqueue_id from_payload save_task
enqueue p input now = save_task (
    create_task (record {
      id = enqueue_id p input now;
      kind = input.kind;
      status = TaskStatus.queued;
      priority = get_or input.priority 50;
      manifest_id = from_payload input.manifest_id "manifestId" input.payload;
      workflow_id = from_payload input.workflow_id "workflowId" input.payload;
      trace_id = from_payload input.trace_id "traceId" input.payload;
      correlation_id = from_payload input.correlation_id "correlationId" input.payload;
      source = from_payload input.source "source" input.payload;
      payload = input.payload;
      scheduled_for = input.scheduled_for;
      max_attempts = input.max_attempts;
      created_at = now;
      updated_at = now;
    }))
