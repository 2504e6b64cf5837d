-- ===== src/Queue/Finished.antt =====
-- How a running task is finished, put aside or planned again
-- (packages/queue-adapters/src/index.ts).
use gana_v.Prelude.{
  ◌+◌, ◌*◌, max, String, ◌≡◌, inl, inr, Option, none, some, [], ◌∷◌, ◌++◌, arith, length, last,
  all_but_last,
}
use gana_v.Prelude.Texts.{truthy}
use gana_v.Queue.Task.{RunStatus, TaskRun, TaskStatus, TriggerKind, Time, Attempt, Task}
use gana_v.Queue.Lifecycle.{
  ok, Result-cases, finish_task, finish_attempt, quarantine_task, schedule_task_retry, RetryPlan,
}

-- A task that finished with `outcome` has no lease left and its last attempt is closed.
pub record IsFinished (outcome : TaskStatus) (error : Option String) (now : Time) (old new : Task)
    : Type 0 where
  pub status : new.status ≡ outcome
  pub free :
      (new.lease_owner ≡ none) × (new.lease_expires_at ≡ none) × (new.active_task_run_id ≡ none)
  pub attempts :
      (attempt : Attempt) × (last old.attempts ≡ some attempt)
      × (new.attempts ≡ all_but_last old.attempts ++ finish_attempt attempt now error ∷ [])
  pub message : new.last_error_message ≡ truthy error
  pub same_id : new.id ≡ old.id

-- A run that is closed at `now` with `outcome`: it is the same run of the same task and attempt.
pub record IsClosedRun (outcome : RunStatus) (error : Option String) (now : Time)
    (old new : TaskRun) : Type 0 where
  pub status : new.status ≡ outcome
  pub message : new.error ≡ error
  pub finished : new.finished_at ≡ some now
  pub same_id : new.id ≡ old.id
  pub same_task : new.task_id ≡ old.task_id
  pub same_attempt : new.attempt_number ≡ old.attempt_number

module _ (t : Task) (now : Time) (error : Option String) (a : Attempt)
    (runs : t.status ≡ TaskStatus.running) (found : last t.attempts ≡ some a) where
  -- A running task with an attempt can be finished.
  pub finish_task-IsFinished :
      (outcome : TaskStatus)
      → (u : Task) × (finish_task t outcome now error ≡ ok u) × IsFinished outcome error now t u
  unfolding finish_task
  finish_task-IsFinished outcome = elim (Result-cases (finish_task t outcome now error)) [
    | inl (e, p) ↦ absurd (ground arith)
    | inr (u, p) ↦ (
      u,
      p,
      record {
        status = ground arith;
        free = ground arith;
        attempts = (a, found, ground arith);
        message = ground arith;
        same_id = ground arith;
      },
    )
  ]

  -- So it can be put aside, and planned again.
  pub quarantine_task-IsFinished :
      (reason : String)
      → error ≡ some reason
      → (u : Task) × (quarantine_task t reason now ≡ ok u)
        × IsFinished TaskStatus.quarantined (some reason) now t u
  unfolding quarantine_task
  quarantine_task-IsFinished reason same = elim (Result-cases (quarantine_task t reason now)) [
    | inl (e, p) ↦ absurd (ground arith)
    | inr (u, p) ↦ (
      u,
      p,
      record {
        status = ground arith;
        free = ground arith;
        attempts = (a, found, ground arith);
        message = ground arith;
        same_id = ground arith;
      },
    )
  ]

  pub schedule_task_retry-IsFinished :
      (reason : String)
      → error ≡ some reason
      → (plan : RetryPlan) × (schedule_task_retry t now reason ≡ ok plan)
        × IsFinished TaskStatus.queued (some reason) now t plan.task
        × (plan.task.trigger_kind ≡ TriggerKind.retry)
        × (plan.task.scheduled_for ≡ some plan.retry_scheduled_for)
        × (plan.retry_scheduled_for ≡ now + 60000 * max (length t.attempts) 1)
  unfolding schedule_task_retry
  schedule_task_retry-IsFinished reason same =
      elim (Result-cases (schedule_task_retry t now reason)) [
        | inl (e, p) ↦ absurd (ground arith)
        | inr (u, p) ↦ (
          u,
          p,
          record {
            status = ground arith;
            free = ground arith;
            attempts = (a, found, ground arith);
            message = ground arith;
            same_id = ground arith;
          },
          ground arith,
          ground arith,
          ground arith,
        )
      ]
