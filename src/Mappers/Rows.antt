-- ===== src/Mappers/Rows.antt =====
-- Tasks and their runs as rows of the database, and back
-- (packages/storage-adapters/src/prisma/mappers.ts). A `Date` of a row is the number of its
-- milliseconds, as the times of the entities are, so that `toDate` and `toISOString` leave it as it
-- is; a `null` is `none`.
use mathlib.Core.Option.{map as map_some}
use gana_v.Prelude.{ℕ, String, Option, none, some, List, [], ◌∷◌, ◌+◌, map, get_or}
use gana_v.Prelude.Texts.{truthy, join}
use gana_v.Queue.Task.{
  TaskStatus, TaskKind, TriggerKind, RunStatus, Value, Members, Payload, Time, Attempt, Task,
  TaskRun,
}
use gana_v.Queue.Enqueue.{members_of}
use gana_v.Queue.Store.{Platform, compute_opaque_id}
use gana_v.Mappers.Names.{task_kind_to_prisma, task_kind_to_domain}

-- A row of the task runs: the input of its creation has the same columns.
pub record TaskRunRow : Type 0 where
  pub id : String
  pub task_id : String
  pub attempt_number : ℕ
  pub status : RunStatus
  pub worker_name : Option String
  pub started_at : Time
  pub finished_at : Option Time
  pub error : Option String
  pub result : Value
  pub retry_scheduled_for : Option Time
  pub created_at : Time
  pub updated_at : Time

-- A row of the tasks, without its runs.
pub record TaskRow : Type 0 where
  pub id : String
  pub kind : String
  pub status : TaskStatus
  pub trigger_kind : Option TriggerKind
  pub priority : ℕ
  pub dedupe_key : Option String
  pub manifest_id : Option String
  pub workflow_id : Option String
  pub trace_id : Option String
  pub correlation_id : Option String
  pub source : Option String
  pub payload : Value
  pub scheduled_for : Option Time
  pub max_attempts : Option ℕ
  pub last_error_message : Option String
  pub lease_owner : Option String
  pub lease_expires_at : Option Time
  pub claimed_at : Option Time
  pub last_heartbeat_at : Option Time
  pub active_task_run_id : Option String
  pub created_at : Time
  pub updated_at : Time

abbrev pub payload_of : Members → Payload
payload_of Members.no_members = []
payload_of (Members.member k v rest) = (k, v) ∷ payload_of rest

unfoldable pub as_record : Value → Payload
as_record (Value.object members) = payload_of members
as_record _ = []

-- `value ? asRecord(value) : undefined` for a column of an object or `null`
abbrev pub optional_record : Value → Option Payload
optional_record Value.null = none
optional_record value = some (as_record value)

-- `value ? value : null` for an optional object
abbrev pub json_or_null : Option Payload → Value
json_or_null none = Value.null
json_or_null (some payload) = Value.object (members_of payload)

unfoldable pub create_opaque_task_run_id : Platform → String → ℕ → String
unfolding compute_opaque_id
create_opaque_task_run_id p task_id attempt_number =
    compute_opaque_id p "trn"
      (join (task_id ∷ ":attempt:" ∷ p.number_to_string attempt_number ∷ []))

abbrev attempt_status : Option Time → Option String → RunStatus
attempt_status none error = RunStatus.running
attempt_status (some finished_at) none = RunStatus.succeeded
attempt_status (some finished_at) (some error) = RunStatus.failed

unfoldable pub task_attempt_to_task_run_input : Platform → String → Attempt → ℕ → TaskRunRow
unfolding create_opaque_task_run_id
task_attempt_to_task_run_input p task_id attempt attempt_number = record {
  id = create_opaque_task_run_id p task_id attempt_number;
  task_id = task_id;
  attempt_number = attempt_number;
  status = attempt_status attempt.finished_at (truthy attempt.error);
  worker_name = none;
  started_at = attempt.started_at;
  finished_at = attempt.finished_at;
  error = attempt.error;
  result = Value.null;
  retry_scheduled_for = none;
  created_at = attempt.started_at;
  updated_at = get_or attempt.finished_at attempt.started_at;
}

unfoldable pub task_run_to_task_attempt : TaskRunRow → Attempt
task_run_to_task_attempt row = record {
  started_at = row.started_at;
  finished_at = row.finished_at;
  error = truthy row.error;
}

unfoldable pub task_run_record_to_domain : TaskRunRow → TaskRun
unfolding as_record
task_run_record_to_domain row = record {
  id = row.id;
  task_id = row.task_id;
  attempt_number = row.attempt_number;
  status = row.status;
  worker_name = truthy row.worker_name;
  started_at = row.started_at;
  finished_at = row.finished_at;
  error = truthy row.error;
  result = optional_record row.result;
  retry_scheduled_for = row.retry_scheduled_for;
  created_at = row.created_at;
  updated_at = row.updated_at;
}

unfoldable pub task_run_domain_to_create_input : TaskRun → TaskRunRow
task_run_domain_to_create_input run = record {
  id = run.id;
  task_id = run.task_id;
  attempt_number = run.attempt_number;
  status = run.status;
  worker_name = run.worker_name;
  started_at = run.started_at;
  finished_at = run.finished_at;
  error = run.error;
  result = json_or_null run.result;
  retry_scheduled_for = run.retry_scheduled_for;
  created_at = run.created_at;
  updated_at = run.updated_at;
}

-- The task of a row whose kind is read, with the rows of its runs in the order of their attempts.
unfoldable pub task_of : TaskRow → List TaskRunRow → TaskKind → Task
unfolding as_record task_run_to_task_attempt
task_of row task_runs kind = record {
  id = row.id;
  kind = kind;
  status = row.status;
  trigger_kind = get_or row.trigger_kind TriggerKind.system;
  priority = row.priority;
  dedupe_key = truthy row.dedupe_key;
  manifest_id = truthy row.manifest_id;
  workflow_id = truthy row.workflow_id;
  trace_id = truthy row.trace_id;
  correlation_id = truthy row.correlation_id;
  source = truthy row.source;
  payload = as_record row.payload;
  attempts = map task_run_to_task_attempt task_runs;
  scheduled_for = row.scheduled_for;
  max_attempts = get_or row.max_attempts 3;
  last_error_message = truthy row.last_error_message;
  lease_owner = truthy row.lease_owner;
  lease_expires_at = row.lease_expires_at;
  claimed_at = row.claimed_at;
  last_heartbeat_at = row.last_heartbeat_at;
  active_task_run_id = truthy row.active_task_run_id;
  created_at = row.created_at;
  updated_at = row.updated_at;
}

unfoldable pub task_record_to_domain : TaskRow → List TaskRunRow → Option Task
unfolding task_kind_to_domain task_of
task_record_to_domain row task_runs =
    map_some (task_of row task_runs) (task_kind_to_domain row.kind)

unfoldable pub task_domain_to_create_input : Task → TaskRow
unfolding task_kind_to_prisma
task_domain_to_create_input task = record {
  id = task.id;
  kind = task_kind_to_prisma task.kind;
  status = task.status;
  trigger_kind = some task.trigger_kind;
  priority = task.priority;
  dedupe_key = task.dedupe_key;
  manifest_id = task.manifest_id;
  workflow_id = task.workflow_id;
  trace_id = task.trace_id;
  correlation_id = task.correlation_id;
  source = task.source;
  payload = Value.object (members_of task.payload);
  scheduled_for = task.scheduled_for;
  max_attempts = some task.max_attempts;
  last_error_message = task.last_error_message;
  lease_owner = task.lease_owner;
  lease_expires_at = task.lease_expires_at;
  claimed_at = task.claimed_at;
  last_heartbeat_at = task.last_heartbeat_at;
  active_task_run_id = task.active_task_run_id;
  created_at = task.created_at;
  updated_at = task.updated_at;
}

-- The runs that `PrismaTaskRepository.save` creates with a task: `entity.attempts.map(…, index + 1)`,
-- where `index` counts from the second argument.
unfoldable pub created_runs : Platform → String → ℕ → List Attempt → List TaskRunRow
unfolding task_attempt_to_task_run_input
created_runs p task_id index [] = []
created_runs p task_id index (attempt ∷ attempts) =
    task_attempt_to_task_run_input p task_id attempt (index + 1)
    ∷ created_runs p task_id (index + 1) attempts

-- The task that `PrismaTaskRepository.save` returns, where `held` has the runs of the row with its
-- id: without such a row the task and its runs are created, and otherwise the row is updated and
-- its runs stay as they are.
unfoldable pub prisma_saved : Platform → Task → Option (List TaskRunRow) → Option Task
unfolding task_record_to_domain task_domain_to_create_input created_runs
prisma_saved p task held =
    task_record_to_domain (task_domain_to_create_input task)
      (get_or held (created_runs p task.id 0 task.attempts))
