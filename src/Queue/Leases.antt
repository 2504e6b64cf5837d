-- ===== src/Queue/Leases.antt =====
-- The steps of a task's life cycle (packages/queue-adapters/src/index.ts) keep its lease fields in
-- agreement with its status, and keep its id.
use gana_v.Prelude.{ℕ, String, ◌≡◌, false, Option, none, some, arith}
use gana_v.Prelude.Texts.{truthy}
use gana_v.Queue.Task.{TaskStatus, Time, Task, same_status}
use gana_v.Queue.Lifecycle.{
  ok, start_task, finish_task, recycle_expired_lease_task, renew_task_lease, quarantine_task,
  RetryPlan, schedule_task_retry,
}
use gana_v.Queue.Owners.{IsLeased, last-concat}

pub start_task-IsLeased :
    (t u : Task) (now : Time) (owner : String) (ms : ℕ) (run_id : String)
    → truthy (some owner) ≡ some owner
    → truthy (some run_id) ≡ some run_id
    → start_task t now owner ms (some run_id) ≡ ok u
    → IsLeased u
      × (u.id ≡ t.id)
      × (u.status ≡ TaskStatus.running)
      × (u.active_task_run_id ≡ some run_id)
unfolding start_task
start_task-IsLeased t u now owner ms run_id named named_run h =
    ground (
      arith,
      last-concat t.attempts (record { started_at = now; finished_at = none; error = none }),
    )

pub finish_task-IsLeased :
    (t u : Task) (outcome : TaskStatus) (now : Time) (error : Option String)
    → same_status outcome TaskStatus.running ≡ false
    → finish_task t outcome now error ≡ ok u
    → IsLeased u × (u.id ≡ t.id) × (u.status ≡ outcome)
unfolding finish_task
finish_task-IsLeased t u outcome now error idle h = ground arith

pub quarantine_task-IsLeased :
    (t u : Task) (reason : String) (now : Time)
    → quarantine_task t reason now ≡ ok u
    → IsLeased u × (u.id ≡ t.id) × (u.status ≡ TaskStatus.quarantined)
unfolding quarantine_task
quarantine_task-IsLeased t u reason now h = ground arith

pub schedule_task_retry-IsLeased :
    (t : Task) (plan : RetryPlan) (now : Time) (error : String)
    → schedule_task_retry t now error ≡ ok plan
    → IsLeased plan.task × (plan.task.id ≡ t.id) × (plan.task.status ≡ TaskStatus.queued)
unfolding schedule_task_retry
schedule_task_retry-IsLeased t plan now error h = ground arith

pub renew_task_lease-IsLeased :
    (t u : Task) (now : Time) (ms : ℕ) (owner : String)
    → truthy (some owner) ≡ some owner
    → IsLeased t
    → renew_task_lease t now ms owner ≡ ok u
    → IsLeased u
      × (u.id ≡ t.id)
      × (u.status ≡ TaskStatus.running)
      × (u.active_task_run_id ≡ t.active_task_run_id)
unfolding renew_task_lease
renew_task_lease-IsLeased t u now ms owner named v h = ground arith

pub recycle-IsLeased : (t : Task) (now : Time) → IsLeased (recycle_expired_lease_task t now)
unfolding recycle_expired_lease_task
recycle-IsLeased t now = ground arith
