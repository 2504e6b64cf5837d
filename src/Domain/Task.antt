-- ===== src/Domain/Task.antt =====
-- Tasks as the domain creates and moves them (packages/domain-core/src/entities/task.ts). The entity
-- has the fields of the queue's task, so its type is the queue's.
use gana_v.Prelude.{
  ℕ, String, Option, none, some, List, [], ◌∷◌, ◌++◌, not, if◌then◌else◌, get_or, or_else, last,
  all_but_last,
}
use gana_v.Prelude.Texts.{truthy, join}
use gana_v.Queue.Task.{TaskStatus, TaskKind, TriggerKind, Payload, Time, Attempt, Task, same_status}
use gana_v.Queue.Lifecycle.{as_optional_string, property}
use gana_v.Domain.Common.{Outcome, done, raised}

-- The argument of `createTask`.
pub record TaskInput : Type 0 where
  pub id : String
  pub kind : TaskKind
  pub status : TaskStatus
  pub trigger_kind : Option TriggerKind
  pub priority : ℕ
  pub dedupe_key : Option String
  pub manifest_id : Option String
  pub workflow_id : Option String
  pub trace_id : Option String
  pub correlation_id : Option String
  pub source : Option String
  pub payload : Payload
  pub attempts : Option (List Attempt)
  pub scheduled_for : Option Time
  pub max_attempts : Option ℕ
  pub last_error_message : Option String
  pub lease_owner : Option String
  pub lease_expires_at : Option Time
  pub claimed_at : Option Time
  pub last_heartbeat_at : Option Time
  pub active_task_run_id : Option String
  pub created_at : Option Time
  pub updated_at : Option Time

-- A name that is given, or else the payload's.
abbrev given_or : Option String → String → Payload → Option String
given_or given key payload = truthy (or_else given (as_optional_string (property key payload)))

unfoldable pub create_task : TaskInput → Time → Task
create_task input now =
    let timestamp = get_or input.created_at now in
    record {
      id = input.id;
      kind = input.kind;
      status = input.status;
      trigger_kind = get_or input.trigger_kind TriggerKind.system;
      priority = input.priority;
      dedupe_key = truthy input.dedupe_key;
      manifest_id = given_or input.manifest_id "manifestId" input.payload;
      workflow_id = given_or input.workflow_id "workflowId" input.payload;
      trace_id = given_or input.trace_id "traceId" input.payload;
      correlation_id = given_or input.correlation_id "correlationId" input.payload;
      source = given_or input.source "source" input.payload;
      payload = input.payload;
      attempts = get_or input.attempts [];
      scheduled_for = input.scheduled_for;
      max_attempts = get_or input.max_attempts 3;
      last_error_message = truthy input.last_error_message;
      lease_owner = truthy input.lease_owner;
      lease_expires_at = input.lease_expires_at;
      claimed_at = input.claimed_at;
      last_heartbeat_at = input.last_heartbeat_at;
      active_task_run_id = truthy input.active_task_run_id;
      created_at = timestamp;
      updated_at = get_or input.updated_at timestamp;
    }

unfoldable pub start_task : Task → Time → Outcome Task
start_task task started_at =
    if not (same_status task.status TaskStatus.queued)
    then raised (record {
      message = join ("Task " ∷ task.id ∷ " is not queued" ∷ []);
      code = "TASK_NOT_QUEUED";
    })
    else done (record task {
      status = TaskStatus.running;
      attempts =
          task.attempts
          ++ record { started_at = started_at; finished_at = none; error = none } ∷ [];
      updated_at = started_at;
    })

-- The outcomes that a task can finish with.
pub data FinishStatus : Type 0 where
  succeeded failed cancelled : FinishStatus

abbrev pub finish_status : FinishStatus → TaskStatus
finish_status succeeded = TaskStatus.succeeded
finish_status failed = TaskStatus.failed
finish_status cancelled = TaskStatus.cancelled

-- Any error that is given replaces the attempt's, the empty text too.
abbrev pub finish_attempt : Attempt → Time → Option String → Attempt
finish_attempt attempt finished_at error = record attempt {
  finished_at = some finished_at;
  error = or_else error attempt.error;
}

unfoldable pub finish_task : Task → FinishStatus → Option String → Time → Outcome Task
finish_task task outcome error finished_at =
    if not (same_status task.status TaskStatus.running)
    then raised (record {
      message = join ("Task " ∷ task.id ∷ " is not running" ∷ []);
      code = "TASK_NOT_RUNNING";
    })
    else elim (last task.attempts) [
      | none ↦ raised (record {
        message = join ("Task " ∷ task.id ∷ " has no attempt to finish" ∷ []);
        code = "TASK_MISSING_ATTEMPT";
      })
      | some attempt ↦ done (record task {
        status = finish_status outcome;
        attempts = all_but_last task.attempts ++ finish_attempt attempt finished_at error ∷ [];
        last_error_message = or_else error task.last_error_message;
        updated_at = finished_at;
      })
    ]
