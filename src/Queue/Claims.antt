-- ===== src/Queue/Claims.antt =====
-- `claimNext` and `claim` of the in-memory adapter (packages/queue-adapters/src/index.ts): running
-- tasks whose lease is over go back to the queue, then a ready task starts.
use gana_v.Prelude.{ℕ, ◌+◌, String, ◌&&◌, Option, none, some, List, [], ◌∷◌, if◌then◌else◌, length}
use gana_v.Prelude.Texts.{join, truthy}
use gana_v.Storage.{get_by_id, save}
use gana_v.Queue.Task.{
  TaskStatus, TaskRun, TaskKind, RunStatus, Time, Task, Claim, same_status, is_running, task_key,
  run_key,
}
use gana_v.Queue.Lifecycle.{
  default_lease_ms, default_lease_owner, default_lease_expiry_error, start_task, has_expired_lease,
  recycle_expired_lease_task, create_expired_task_run,
}
use gana_v.Queue.Select.{is_task_ready, next_ready_task}
use gana_v.Queue.Store.{
  Platform, compute_opaque_id, Store, Exec, ◌>>=◌, pure, lift, save_task, save_run, find_by_status,
}

-- One round of the loop that both claims begin with: a running task whose lease is over has its run
-- closed, if that still runs, and goes back to the queue.
unfoldable pub close_expired_run : Option String → Time → Store → Store
unfolding create_expired_task_run
close_expired_run none now s = s
close_expired_run (some run_id) now s = elim (get_by_id run_key run_id s.task_runs) [
  | none ↦ s
  | some run ↦
      if is_running run.status
      then record s {
        task_runs =
            save run_key (create_expired_task_run run now default_lease_expiry_error) s.task_runs;
      }
      else s
]

unfoldable pub recycle_task : Task → Time → Store → Store
unfolding has_expired_lease recycle_expired_lease_task close_expired_run
recycle_task task now s =
    if has_expired_lease task now
    then (let s' = close_expired_run (truthy task.active_task_run_id) now s in
        record s' { tasks = save task_key (recycle_expired_lease_task task now) s'.tasks })
    else s

unfoldable pub recycle_tasks : List Task → Time → Store → Store
unfolding recycle_task
recycle_tasks [] now s = s
recycle_tasks (task ∷ tasks) now s = recycle_tasks tasks now (recycle_task task now s)

unfoldable pub recycle_expired : Time → Store → Store
unfolding recycle_tasks find_by_status
recycle_expired now s = recycle_tasks (find_by_status TaskStatus.running s.tasks) now s

-- `computeOpaqueId("trn", `${task.id}:${attemptNumber}:${nowIso}`)`
unfoldable pub task_run_id : Platform → Task → ℕ → Time → String
unfolding compute_opaque_id
task_run_id p task attempt_number now =
    compute_opaque_id p "trn"
      (join (task.id ∷ ":" ∷ p.number_to_string attempt_number ∷ ":" ∷ p.to_iso_string now ∷ []))

-- The run that both claims create, under the id `run_id`.
abbrev pub new_run : String → Task → Time → TaskRun
new_run run_id task now = record {
  id = run_id;
  task_id = task.id;
  attempt_number = length task.attempts + 1;
  status = RunStatus.running;
  worker_name = none;
  started_at = now;
  finished_at = none;
  error = none;
  result = none;
  retry_scheduled_for = none;
  created_at = now;
  updated_at = now;
}

-- The end of both claims: the task starts, and its run is created.
unfoldable pub start_claim : Platform → Task → Time → Exec (Option Claim)
unfolding save_task save_run
start_claim p task now =
    let run_id = task_run_id p task (length task.attempts + 1) now in
    do
      started ← lift (start_task task now default_lease_owner default_lease_ms (some run_id))
      claimed ← save_task started
      run ← save_run (new_run run_id task now)
      pure (some (record { task = claimed; task_run = run }))

unfoldable pub start_if_some : Platform → Option Task → Time → Exec (Option Claim)
start_if_some p none now = pure none
start_if_some p (some task) now = start_claim p task now

unfoldable pub claim_next : Platform → Option TaskKind → Time → Exec (Option Claim)
unfolding start_if_some
claim_next p kind now s =
    let s' = recycle_expired now s in
    start_if_some p (next_ready_task (find_by_status TaskStatus.queued s'.tasks) kind now) now s'

-- `!task || task.status !== "queued" || !isTaskReady(task, nowIso)` gives no claim
unfoldable pub claimable : Option Task → Time → Option Task
unfolding is_task_ready
claimable none now = none
claimable (some task) now =
    if same_status task.status TaskStatus.queued && is_task_ready task now then some task else none

unfoldable pub claim : Platform → String → Time → Exec (Option Claim)
unfolding start_if_some
claim p task_id now s =
    let s' = recycle_expired now s in
    start_if_some p (claimable (get_by_id task_key task_id s'.tasks) now) now s'
