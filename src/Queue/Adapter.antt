-- ===== src/Queue/Adapter.antt =====
-- The other operations of the in-memory adapter (packages/queue-adapters/src/index.ts): the four of
-- a worker on its claim, and `requeue`, `summary` and `getTaskById`.
use gana_v.Prelude.{
  ℕ, String, Bool, true, false, Option, none, some, List, [], ◌∷◌, ltb, if◌then◌else◌, or_else,
  length, keep, take,
}
use gana_v.Prelude.Sort.{sort}
use gana_v.Storage.{get_by_id}
use gana_v.Queue.Task.{
  TaskStatus, RunStatus, Value, Payload, Time, Task, TaskRun, Claim, same_status, task_key,
}
use gana_v.Queue.Lifecycle.{
  cannot_requeue, err, RetryPlan, ensure_task_lifecycle_match, default_lease_owner,
  strip_active_task_fields, finish_task, should_retry_task, renew_task_lease, quarantine_task,
  schedule_task_retry,
}
use gana_v.Queue.Store.{
  Store, Exec, ◌>>=◌, pure, lift, save_task, save_run, require_task, require_run,
}

-- The beginning of the four operations on a claim: both entities are there, and belong together.
unfoldable pub require_claim : String → String → Time → Exec Claim
unfolding require_task require_run ensure_task_lifecycle_match
require_claim task_id run_id now = do
  task ← require_task task_id
  run ← require_run run_id
  _ ← lift (ensure_task_lifecycle_match task run task_id now)
  pure (record { task = task; task_run = run })

-- The end of the four operations: both entities are saved.
unfoldable pub save_claim : Task → TaskRun → Exec Claim
unfolding save_task save_run
save_claim task run = do
  saved ← save_task task
  saved_run ← save_run run
  pure (record { task = saved; task_run = saved_run })

-- What `renewLease` does with the claim.
unfoldable pub renew_claim : Time → ℕ → Claim → Exec Claim
renew_claim now lease_ms c = do
  renewed ← lift (renew_task_lease c.task now lease_ms default_lease_owner)
  save_claim renewed (record c.task_run { updated_at = now })

unfoldable pub renew_lease : String → String → Time → ℕ → Exec Claim
renew_lease task_id run_id now lease_ms = do
  c ← require_claim task_id run_id now
  renew_claim now lease_ms c

-- The run that a finished claim leaves, with the members of its `result`.
abbrev pub close_run : TaskRun → RunStatus → Option String → Payload → Time → TaskRun
close_run run status error result now = record run {
  status = status;
  error = or_else error run.error;
  result = some result;
  finished_at = some now;
  updated_at = now;
}

abbrev pub completed_run : TaskRun → Time → TaskRun
completed_run run now =
    close_run run RunStatus.succeeded none (("status", Value.text "succeeded") ∷ []) now

abbrev pub failed_run : TaskRun → String → String → Time → TaskRun
failed_run run status error now =
    close_run run RunStatus.failed (some error)
      (("status", Value.text status) ∷ ("error", Value.text error) ∷ []) now

unfoldable pub complete_claim : Time → Claim → Exec Claim
complete_claim now c = do
  finished ← lift (finish_task c.task TaskStatus.succeeded now none)
  save_claim finished (completed_run c.task_run now)

unfoldable pub complete : String → String → Time → Exec Claim
complete task_id run_id now = do c ← require_claim task_id run_id now; complete_claim now c

unfoldable pub quarantine_claim : String → Time → Claim → Exec Claim
quarantine_claim reason now c = do
  stopped ← lift (quarantine_task c.task reason now)
  save_claim stopped (failed_run c.task_run "quarantined" reason now)

unfoldable pub quarantine : String → String → String → Time → Exec Claim
quarantine task_id run_id reason now = do
  c ← require_claim task_id run_id now
  quarantine_claim reason now c

abbrev pub retried_run : TaskRun → RetryPlan → String → Time → TaskRun
retried_run run plan error now = record (failed_run run "failed" error now) {
  retry_scheduled_for = some plan.retry_scheduled_for;
}

unfoldable pub retry_claim : String → Time → Claim → Exec Claim
retry_claim error now c = do
  plan ← lift (schedule_task_retry c.task now error)
  save_claim plan.task (retried_run c.task_run plan error now)

-- A failed claim is tried again while the task has attempts left, and is put aside after that.
unfoldable pub fail_claim : String → Time → Claim → Exec Claim
fail_claim error now c =
    if should_retry_task c.task then retry_claim error now c else quarantine_claim error now c

unfoldable pub fail : String → String → String → Time → Exec Claim
fail task_id run_id error now = do c ← require_claim task_id run_id now; fail_claim error now c

abbrev pub can_requeue : TaskStatus → Bool
can_requeue TaskStatus.failed = true
can_requeue TaskStatus.quarantined = true
can_requeue TaskStatus.cancelled = true
can_requeue _ = false

unfoldable pub requeue_task : String → Time → Task → Exec Task
unfolding save_task strip_active_task_fields
requeue_task task_id now task =
    if can_requeue task.status
    then save_task
        (record (strip_active_task_fields task) { status = TaskStatus.queued; updated_at = now })
    else lift (err (cannot_requeue task_id task.status))

unfoldable pub requeue : String → Time → Exec Task
requeue task_id now = do task ← require_task task_id; requeue_task task_id now task

pub record TaskSummary : Type 0 where
  pub total : ℕ
  pub queued : ℕ
  pub running : ℕ
  pub succeeded : ℕ
  pub failed : ℕ
  pub quarantined : ℕ
  pub cancelled : ℕ
  pub latest_tasks : List Task

abbrev pub with_status : TaskStatus → List Task → ℕ
with_status status tasks = length (keep (λ task. same_status task.status status) tasks)

unfoldable pub build_task_summary : List Task → TaskSummary
unfolding sort
build_task_summary tasks = record {
  total = length tasks;
  queued = with_status TaskStatus.queued tasks;
  running = with_status TaskStatus.running tasks;
  succeeded = with_status TaskStatus.succeeded tasks;
  failed = with_status TaskStatus.failed tasks;
  quarantined = with_status TaskStatus.quarantined tasks;
  cancelled = with_status TaskStatus.cancelled tasks;
  latest_tasks = take 10 (sort (λ left right. ltb right.created_at left.created_at) tasks);
}

unfoldable pub summary : Store → TaskSummary
unfolding build_task_summary
summary s = build_task_summary s.tasks

unfoldable pub get_task_by_id : String → Store → Option Task
get_task_by_id task_id s = get_by_id task_key task_id s.tasks
