-- ===== src/ControlPlane/Messages.antt =====
-- `error.message` of the errors that the in-memory queue throws
-- (packages/queue-adapters/src/index.ts).
use gana_v.Prelude.{String, [], ◌∷◌}
use gana_v.Prelude.Texts.{join}
use gana_v.Queue.Task.{TaskStatus}
use gana_v.Queue.Lifecycle.{
  QueueError, task_not_found, run_not_found, run_of_other_task, task_not_running, run_not_running,
  run_not_active, no_lease_owner, no_lease_expiry, lease_expired, task_not_queued, no_attempt,
  cannot_requeue,
}
use gana_v.Queue.Store.{Platform}

abbrev pub status_name : TaskStatus → String
status_name TaskStatus.queued = "queued"
status_name TaskStatus.running = "running"
status_name TaskStatus.succeeded = "succeeded"
status_name TaskStatus.failed = "failed"
status_name TaskStatus.quarantined = "quarantined"
status_name TaskStatus.cancelled = "cancelled"

unfoldable pub error_message : Platform → QueueError → String
error_message p (task_not_found task) = join ("Persisted task " ∷ task ∷ " was not found" ∷ [])
error_message p (run_not_found run) = join ("Task run " ∷ run ∷ " was not found" ∷ [])
error_message p (run_of_other_task run task) =
    join ("Task run " ∷ run ∷ " does not belong to task " ∷ task ∷ [])
error_message p (task_not_running task) = join ("Task " ∷ task ∷ " is not running" ∷ [])
error_message p (run_not_running run) = join ("Task run " ∷ run ∷ " is not running" ∷ [])
error_message p (run_not_active run task) =
    join ("Task run " ∷ run ∷ " is not the active task run for task " ∷ task ∷ [])
error_message p (no_lease_owner task) = join ("Task " ∷ task ∷ " has no active lease owner" ∷ [])
error_message p (no_lease_expiry task) = join ("Task " ∷ task ∷ " has no active lease expiry" ∷ [])
error_message p (lease_expired task at) =
    join ("Task " ∷ task ∷ " lease expired at " ∷ p.to_iso_string at ∷ [])
error_message p (task_not_queued task) = join ("Task " ∷ task ∷ " is not queued" ∷ [])
error_message p (no_attempt task) = join ("Task " ∷ task ∷ " has no attempt to finish" ∷ [])
error_message p (cannot_requeue task status) =
    join ("Task " ∷ task ∷ " cannot be requeued from status " ∷ status_name status ∷ [])
