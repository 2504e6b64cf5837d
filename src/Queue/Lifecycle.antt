-- ===== src/Queue/Lifecycle.antt =====
-- The life cycle of a task (packages/queue-adapters/src/index.ts): the checks and the pure steps
-- that every operation of the queue is made of. A thrown `Error` is a value of `QueueError`; a
-- `...(x ? { x } : {})` with a text drops an empty one.
use gana_v.Prelude.{
  ◌≡◌, refl, ◌⊎◌, inl, inr, ℕ, ◌+◌, ◌*◌, max, String, Bool, true, false, not, Option, none, some,
  [], ◌∷◌, ◌++◌, leb, ltb, if◌then◌else◌, or_else, is_some, length, last, all_but_last,
}
use gana_v.Prelude.Texts.{str_eq, truthy}
use gana_v.Queue.Task.{
  TaskStatus, TriggerKind, RunStatus, Value, Payload, Time, Attempt, Task, TaskRun, same_status,
  is_running,
}

-- The errors that the queue throws, with the texts that their messages name.
pub data QueueError : Type 0 where
  task_not_found : String → QueueError
  run_not_found : String → QueueError
  run_of_other_task : String → String → QueueError
  task_not_running : String → QueueError
  run_not_running : String → QueueError
  run_not_active : String → String → QueueError
  no_lease_owner : String → QueueError
  no_lease_expiry : String → QueueError
  lease_expired : String → Time → QueueError
  task_not_queued : String → QueueError
  no_attempt : String → QueueError
  cannot_requeue : String → TaskStatus → QueueError

pub data Result {ℓ} (A : Type ℓ) : Type ℓ where
  ok : A → Result A
  err : QueueError → Result A

pub Result-cases {ℓ} :
    {A : Type ℓ} (r : Result A) → ((e : QueueError) × (r ≡ err e)) ⊎ ((a : A) × (r ≡ ok a))
Result-cases (ok a) = inr (a, refl)
Result-cases (err e) = inl (e, refl)

-- An entity that is not there (`null`) is an error.
unfoldable pub ensure_task : Option Task → String → Result Task
ensure_task none task_id = err (task_not_found task_id)
ensure_task (some task) task_id = ok task

unfoldable pub ensure_task_run : Option TaskRun → String → Result TaskRun
ensure_task_run none run_id = err (run_not_found run_id)
ensure_task_run (some run) run_id = ok run

-- `task.activeTaskRunId !== taskRun.id`
abbrev pub is_active_run : Option String → String → Bool
is_active_run none run_id = false
is_active_run (some active) run_id = str_eq active run_id

-- The last three guards: the task has a lease, and it has not expired.
unfoldable pub ensure_lease : Task → Time → Result (Unit {0})
ensure_lease task now =
    if is_some (truthy task.lease_owner)
    then elim task.lease_expires_at [
      | none ↦ err (no_lease_expiry task.id)
      | some expiry ↦ if leb expiry now then err (lease_expired task.id expiry) else ok tt
    ]
    else err (no_lease_owner task.id)

unfoldable pub ensure_task_lifecycle_match : Task → TaskRun → String → Time → Result (Unit {0})
unfolding ensure_lease
ensure_task_lifecycle_match task run expected_task_id now =
    if not (str_eq run.task_id expected_task_id)
    then err (run_of_other_task run.id expected_task_id)
    else if not (same_status task.status TaskStatus.running)
    then err (task_not_running task.id)
    else if not (is_running run.status)
    then err (run_not_running run.id)
    else if not (is_active_run task.active_task_run_id run.id)
    then err (run_not_active run.id expected_task_id)
    else ensure_lease task now

abbrev pub default_lease_ms : ℕ
default_lease_ms = 5 * 60 * 1000

abbrev pub default_lease_owner : String
default_lease_owner = "in-memory-queue"

abbrev pub default_retry_backoff_ms : ℕ
default_retry_backoff_ms = 60 * 1000

abbrev pub default_lease_expiry_error : String
default_lease_expiry_error = "Task lease expired before completion."

-- `typeof value === "string" && value.length > 0 ? value : undefined`
unfoldable pub as_optional_string : Option Value → Option String
as_optional_string (some (Value.text s)) = truthy (some s)
as_optional_string _ = none

-- A property of a payload; the last one of a name counts.
unfoldable pub property : String → Payload → Option Value
property k [] = none
property k ((j, v) ∷ rest) = or_else (property k rest) (if str_eq j k then some v else none)

unfoldable pub strip_active_task_fields : Task → Task
strip_active_task_fields task = record task {
  lease_owner = none;
  lease_expires_at = none;
  claimed_at = none;
  last_heartbeat_at = none;
  active_task_run_id = none;
}

unfoldable pub start_task : Task → Time → String → ℕ → Option String → Result Task
start_task task started_at lease_owner lease_ms run_id =
    if not (same_status task.status TaskStatus.queued)
    then err (task_not_queued task.id)
    else ok (record task {
      status = TaskStatus.running;
      attempts =
          task.attempts
          ++ record { started_at = started_at; finished_at = none; error = none } ∷ [];
      lease_owner = some lease_owner;
      lease_expires_at = some (started_at + lease_ms);
      claimed_at = some started_at;
      last_heartbeat_at = some started_at;
      active_task_run_id = or_else (truthy run_id) task.active_task_run_id;
      updated_at = started_at;
    })

-- The attempt that a finished task closes.
abbrev pub finish_attempt : Attempt → Time → Option String → Attempt
finish_attempt attempt finished_at error = record attempt {
  finished_at = some finished_at;
  error = or_else (truthy error) attempt.error;
}

unfoldable pub finish_task : Task → TaskStatus → Time → Option String → Result Task
finish_task task outcome finished_at error =
    if not (same_status task.status TaskStatus.running)
    then err (task_not_running task.id)
    else elim (last task.attempts) [
      | none ↦ err (no_attempt task.id)
      | some attempt ↦ ok (record task {
        status = outcome;
        attempts = all_but_last task.attempts ++ finish_attempt attempt finished_at error ∷ [];
        active_task_run_id = none;
        lease_owner = none;
        lease_expires_at = none;
        last_heartbeat_at = some finished_at;
        last_error_message = truthy error;
        updated_at = finished_at;
      })
    ]

unfoldable pub should_retry_task : Task → Bool
should_retry_task task = ltb (length task.attempts) task.max_attempts

unfoldable pub has_expired_lease : Task → Time → Bool
has_expired_lease task now =
    if not (same_status task.status TaskStatus.running)
    then false
    else elim task.lease_expires_at [ none ↦ true | some expiry ↦ leb expiry now ]

unfoldable pub recycle_expired_lease_task : Task → Time → Task
unfolding strip_active_task_fields
recycle_expired_lease_task task now = record (strip_active_task_fields task) {
  status = TaskStatus.queued;
  updated_at = now;
}

unfoldable pub renew_task_lease : Task → Time → ℕ → String → Result Task
renew_task_lease task renewed_at lease_ms lease_owner =
    if not (same_status task.status TaskStatus.running)
    then err (task_not_running task.id)
    else ok (record task {
      lease_owner = some lease_owner;
      lease_expires_at = some (renewed_at + lease_ms);
      last_heartbeat_at = some renewed_at;
      updated_at = renewed_at;
    })

unfoldable pub compute_retry_scheduled_for : Task → Time → Time
compute_retry_scheduled_for task failed_at =
    failed_at + default_retry_backoff_ms * max (length task.attempts) 1

unfoldable pub quarantine_task : Task → String → Time → Result Task
unfolding finish_task
quarantine_task task reason quarantined_at =
    elim (finish_task task TaskStatus.failed quarantined_at (some reason)) [
      | err e ↦ err e
      | ok finished ↦
          ok (record finished { status = TaskStatus.quarantined; updated_at = quarantined_at })
    ]

pub record RetryPlan : Type 0 where
  pub task : Task
  pub retry_scheduled_for : Time

unfoldable pub schedule_task_retry : Task → Time → String → Result RetryPlan
unfolding finish_task compute_retry_scheduled_for
schedule_task_retry task failed_at error =
    let at = compute_retry_scheduled_for task failed_at in
    elim (finish_task task TaskStatus.failed failed_at (some error)) [
      | err e ↦ err e
      | ok finished ↦ ok (record {
        task = record finished {
          status = TaskStatus.queued;
          trigger_kind = TriggerKind.retry;
          scheduled_for = some at;
          updated_at = failed_at;
        };
        retry_scheduled_for = at;
      })
    ]

-- The run of a task whose lease ran out.
unfoldable pub create_expired_task_run : TaskRun → Time → String → TaskRun
create_expired_task_run run expired_at error = record run {
  status = RunStatus.failed;
  error = some error;
  result = some (("status", Value.text "lease-expired") ∷ ("error", Value.text error) ∷ []);
  finished_at = some expired_at;
  updated_at = expired_at;
}
