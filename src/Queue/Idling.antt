-- ===== src/Queue/Idling.antt =====
-- What the operations that stop or add a task keep (packages/queue-adapters/src/index.ts): a
-- predicate on stores that holds after any save of a task that does not run and has no lease.
use mathlib.Core.Path.{subst}
use gana_v.Prelude.{String, ◌≡◌, refl, sym, inl, inr, false, none, List, [], ◌∷◌, arith, Bool-cases}
use gana_v.Prelude.Texts.{truthy}
use gana_v.Storage.{save}
use gana_v.Queue.Task.{TaskStatus, Time, Task, TaskRun, Claim, same_status, task_key}
use gana_v.Queue.Lifecycle.{
  finish_task, quarantine_task, schedule_task_retry, should_retry_task, has_expired_lease,
  recycle_expired_lease_task,
}
use gana_v.Queue.Store.{Platform, Store, find_by_status}
use gana_v.Queue.Enqueue.{EnqueueInput, enqueue}
use gana_v.Queue.Claims.{recycle_task, recycle_tasks, recycle_expired}
use gana_v.Queue.Adapter.{
  save_claim, complete, complete_claim, completed_run, fail, fail_claim, retry_claim, retried_run,
  failed_run, quarantine, quarantine_claim, requeue, requeue_task, can_requeue,
}
use gana_v.Queue.Owners.{IsLeased}
use gana_v.Queue.Leases.{
  finish_task-IsLeased, quarantine_task-IsLeased, schedule_task_retry-IsLeased, recycle-IsLeased,
}
use gana_v.Queue.Invariant.{tasks-close_expired_run}
use gana_v.Queue.Invariant.Finishing.{after_lift, after_claim, after_task}

-- The task does not run, and has no lease.
abbrev pub IsIdle : Task → Type 0
IsIdle u = IsLeased u × (same_status u.status TaskStatus.running ≡ false)

-- The store after a save of a task, whatever became of the runs.
abbrev pub with_task : Store → Task → List TaskRun → Store
with_task s u runs = record { tasks = save task_key u s.tasks; task_runs = runs }

IsIdle-finished :
    {u : Task} {outcome : TaskStatus}
    → same_status outcome TaskStatus.running ≡ false
    → IsLeased u
    → u.status ≡ outcome
    → IsIdle u
IsIdle-finished idle leased status =
    (leased, subst (λ st. same_status st TaskStatus.running ≡ false) (sym status) idle)

recycled_idle :
    (t : Task) (now : Time)
    → same_status (recycle_expired_lease_task t now).status TaskStatus.running ≡ false
unfolding recycle_expired_lease_task
recycled_idle t now = refl

module _ (I : Store → Type 0)
    (saves : (s : Store) (u : Task) (runs : List TaskRun)
      → I s
      → IsIdle u
      → I (with_task s u runs)) where
  module _ (now : Time) (s : Store) (v : I s) where
    pub complete-keeps : (k j : String) → I (complete k j now s).1
    unfolding complete complete_claim save_claim
    complete-keeps k j = after_claim I s v k j now (complete_claim now) λ c h.
        after_lift I s v (finish_task c.task TaskStatus.succeeded now none)
          (λ u. save_claim u (completed_run c.task_run now))
          λ u e.
            let (leased, same, status) =
              finish_task-IsLeased c.task u TaskStatus.succeeded now none refl e in
            saves s u _ v (IsIdle-finished refl leased status)

    quarantine_claim-keeps : (reason : String) (c : Claim) → I (quarantine_claim reason now c s).1
    unfolding quarantine_claim save_claim
    quarantine_claim-keeps reason c =
        after_lift I s v (quarantine_task c.task reason now)
          (λ u. save_claim u (failed_run c.task_run "quarantined" reason now))
          λ u e.
            let (leased, same, status) = quarantine_task-IsLeased c.task u reason now e in
            saves s u _ v (IsIdle-finished refl leased status)

    pub quarantine-keeps : (k j reason : String) → I (quarantine k j reason now s).1
    unfolding quarantine
    quarantine-keeps k j reason =
        after_claim I s v k j now (quarantine_claim reason now)
          λ c h. quarantine_claim-keeps reason c

    retry_claim-keeps : (error : String) (c : Claim) → I (retry_claim error now c s).1
    unfolding retry_claim save_claim
    retry_claim-keeps error c =
        after_lift I s v (schedule_task_retry c.task now error)
          (λ plan. save_claim plan.task (retried_run c.task_run plan error now))
          λ plan e.
            let (leased, same, status) = schedule_task_retry-IsLeased c.task plan now error e in
            saves s plan.task _ v (IsIdle-finished refl leased status)

    pub fail-keeps : (k j error : String) → I (fail k j error now s).1
    unfolding fail fail_claim
    fail-keeps k j error = after_claim I s v k j now (fail_claim error now) λ c h.
        elim (Bool-cases (should_retry_task c.task)) [
          | inl e ↦ rw e (retry_claim-keeps error c)
          | inr e ↦ rw e (quarantine_claim-keeps error c)
        ]

    pub requeue-keeps : (k : String) → I (requeue k now s).1
    unfolding requeue
    requeue-keeps k = after_task I s v k (requeue_task k now) λ t e. requeued t
      where
        requeued : (t : Task) → I (requeue_task k now t s).1
        requeued t = elim (Bool-cases (can_requeue t.status)) [
          | inl h ↦ unfold requeue_task in rw h (saves s _ _ v (ground arith, refl))
          | inr h ↦ unfold requeue_task in rw h v
        ]

    pub enqueue-keeps : (p : Platform) (input : EnqueueInput) → I (enqueue p input now s).1
    unfolding enqueue
    enqueue-keeps p input = saves s _ _ v (ground arith, refl)

    recycle_task-keeps : (t : Task) → I (recycle_task t now s)
    recycle_task-keeps t = elim (Bool-cases (has_expired_lease t now)) [
      | inl e ↦
          unfold recycle_task in
          rw (e, tasks-close_expired_run now s (truthy t.active_task_run_id))
            (saves s (recycle_expired_lease_task t now) _ v
              (recycle-IsLeased t now, recycled_idle t now))
      | inr e ↦ unfold recycle_task in rw e v
    ]

  recycle_tasks-keeps : (ts : List Task) (now : Time) (s : Store) → I s → I (recycle_tasks ts now s)
  unfolding recycle_tasks
  recycle_tasks-keeps [] now s v = v
  recycle_tasks-keeps (t ∷ ts) now s v =
      recycle_tasks-keeps ts now (recycle_task t now s) (recycle_task-keeps now s v t)

  pub recycle_expired-keeps : (now : Time) (s : Store) → I s → I (recycle_expired now s)
  unfolding recycle_expired
  recycle_expired-keeps now s v =
      recycle_tasks-keeps (find_by_status TaskStatus.running s.tasks) now s v
