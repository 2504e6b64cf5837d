-- ===== src/ControlPlane/Dispatcher/Stages.antt =====
-- The stages that a dispatcher cycle records
-- (packages/control-plane-runtime/src/dispatcher.ts).
use gana_v.Prelude.{
  String, Bool, false, not, ◌||◌, Option, none, some, List, [], ◌∷◌, map, ltb, if◌then◌else◌, any,
  all, keep, length, or_else,
}
use gana_v.Prelude.Texts.{truthy}
use gana_v.Queue.Task.{TaskStatus, TaskKind, Time, Task, same_status, same_kind, task_key}
use gana_v.ControlPlane.Cycle.{
  CycleStage, StageStatus, stage_pending, stage_running, stage_succeeded, stage_failed,
  stage_blocked, Stage,
}
use gana_v.ControlPlane.Dispatcher.Work.{
  output, thrown, ParlayOutcome, not_published, published, publisher_error,
}
use gana_v.ControlPlane.Dispatcher.Claims.{Execution, has_succeeded}

abbrev pub has_status : TaskStatus → Task → Bool
has_status status task = same_status task.status status

unfoldable pub build_stage_status : List Task → List Execution → StageStatus
build_stage_status [] executions = stage_blocked
build_stage_status (t ∷ ts) executions =
    let tasks = t ∷ ts in
    if any (λ e. not (has_succeeded e)) executions
    then stage_failed
    else if any (λ u. has_status TaskStatus.failed u || has_status TaskStatus.quarantined u) tasks
    then stage_failed
    else if any (has_status TaskStatus.running) tasks
    then stage_running
    else if all (has_status TaskStatus.succeeded) tasks
    then stage_succeeded
    else if any (has_status TaskStatus.queued) tasks
    then stage_pending
    else stage_blocked

-- `execution.error`, where it is not an empty text.
abbrev pub error_of : Execution → Option String
error_of execution = elim execution.result [
  | output _ ↦ none
  | thrown message ↦ truthy (some message)
]

abbrev pub first_error : List Execution → Option String
first_error [] = none
first_error (e ∷ es) = or_else (error_of e) (first_error es)

abbrev pub last_finish : List Execution → Option Time
last_finish [] = none
last_finish (e ∷ es) = or_else (last_finish es) e.claim.task_run.finished_at

abbrev pub first_start : List Execution → Option Time
first_start [] = none
first_start (e ∷ es) = some e.claim.task_run.started_at

abbrev pub is_execution_of : CycleStage → Execution → Bool
is_execution_of CycleStage.research e = same_kind e.claim.task.kind TaskKind.research
is_execution_of CycleStage.prediction e = same_kind e.claim.task.kind TaskKind.prediction
is_execution_of CycleStage.validation e = same_kind e.claim.task.kind TaskKind.validation
is_execution_of CycleStage.parlay e = false

unfoldable pub create_stage_snapshot : CycleStage → List Task → List Execution → Stage
unfolding build_stage_status
create_stage_snapshot stage tasks executions =
    let own = keep (is_execution_of stage) executions in
    record {
      stage = stage;
      status = build_stage_status tasks own;
      task_ids = map task_key tasks;
      task_run_ids = map (λ e. e.claim.task_run.id) own;
      retry_count = length (keep (λ t. ltb 1 (length t.attempts)) tasks);
      stage_started_at = first_start own;
      stage_completed_at = last_finish own;
      stage_error = first_error own;
    }

abbrev pub parlay_status : ParlayOutcome → StageStatus
parlay_status not_published = stage_blocked
parlay_status (published publication) =
    if publication.is_persisted then stage_succeeded else stage_blocked
parlay_status (publisher_error message) = stage_failed

abbrev pub parlay_generated_at : ParlayOutcome → Option Time
parlay_generated_at (published publication) = some publication.generated_at
parlay_generated_at _ = none

abbrev pub parlay_error : ParlayOutcome → Option String
parlay_error (publisher_error message) = truthy (some message)
parlay_error _ = none

unfoldable pub build_parlay_stage : ParlayOutcome → Stage
build_parlay_stage parlay = record {
  stage = CycleStage.parlay;
  status = parlay_status parlay;
  task_ids = [];
  task_run_ids = [];
  retry_count = 0;
  stage_started_at = none;
  stage_completed_at = parlay_generated_at parlay;
  stage_error = parlay_error parlay;
}
