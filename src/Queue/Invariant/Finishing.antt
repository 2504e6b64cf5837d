-- ===== src/Queue/Invariant/Finishing.antt =====
-- The worker's operations and `requeue` (packages/queue-adapters/src/index.ts) keep the invariant of
-- the queue, whether they return or throw.
use gana_v.Prelude.{
  ℕ, String, ◌≡◌, ◌≢◌, refl, sym, ◌∙◌, inl, inr, none, some, arith, Bool-cases, Option-cases,
}
use gana_v.Prelude.Texts.{str_eq_refl}
use gana_v.Storage.{get_by_id, save}
use gana_v.Storage.Laws.{Distinct-save, All-save, All-get_by_id, get_by_id-id, get_by_id-save}
use gana_v.Queue.Task.{TaskStatus, RunStatus, Time, Task, TaskRun, Claim, task_key, run_key}
use gana_v.Queue.Lifecycle.{
  task_not_found, Result, ok, err, finish_task, quarantine_task, schedule_task_retry,
  should_retry_task, renew_task_lease, default_lease_owner,
}
use mathlib.Core.Path.{subst}
use gana_v.Queue.Store.{Store, Exec, ◌>>=◌, lift, bind-ok, bind-err, require_task}
use gana_v.Queue.Adapter.{
  require_claim, save_claim, renew_lease, renew_claim, complete, complete_claim, completed_run,
  fail, fail_claim, retry_claim, retried_run, failed_run, quarantine, quarantine_claim, requeue,
  requeue_task, can_requeue,
}
use gana_v.Queue.Owners.{IsLeased, RunsUnder, IsOwned-save_idle, IsOwned-close, IsOwned-renew}
use gana_v.Queue.Leases.{
  finish_task-IsLeased, quarantine_task-IsLeased, schedule_task_retry-IsLeased,
  renew_task_lease-IsLeased,
}
use gana_v.Queue.Held.{IsHeld, require_claim-cases}
use gana_v.Queue.Invariant.{IsConsistent}

module _ (task_id run_id : String) (now : Time) (s : Store) (v : IsConsistent s) (c : Claim)
    (h : IsHeld task_id run_id now s c) where
  listed : (u : Task) → u.id ≡ c.task.id → get_by_id task_key u.id s.tasks ≡ some c.task
  listed u e = ground (arith, e, h.task_found, get_by_id-id task_key task_id s.tasks c.task)

  -- Both entities of a claim are replaced by ones that do not run.
  save_closed :
      (u : Task) (run : TaskRun)
      → IsLeased u
      → u.id ≡ c.task.id
      → run.id ≡ c.task_run.id
      → run.status ≢ RunStatus.running
      → IsConsistent (save_claim u run s).1
  unfolding save_claim
  save_closed u run leased same_id same_run closed = record {
    distinct = Distinct-save task_key u s.tasks v.distinct;
    leased = All-save task_key IsLeased u s.tasks leased v.leased;
    owned =
        IsOwned-close s.tasks s.task_runs v.owned u c.task c.task_run.id
          (save run_key run s.task_runs) (listed u same_id) h.holds.active
          (λ r found running. closed (
            ground (
              arith,
              get_by_id-save run_key run c.task_run.id s.task_runs,
              same_run,
              str_eq_refl run.id,
            )))
          (λ k e. ground (arith, get_by_id-save run_key run k s.task_runs, same_run, e));
  }

  -- Both entities of a claim are replaced by ones that still run.
  save_renewed :
      (u : Task) (run : TaskRun)
      → IsLeased u
      → u.id ≡ c.task.id
      → RunsUnder run.id u
      → run.id ≡ c.task_run.id
      → run.task_id ≡ c.task_run.task_id
      → IsConsistent (save_claim u run s).1
  unfolding save_claim
  save_renewed u run leased same_id under same_run same_task = record {
    distinct = Distinct-save task_key u s.tasks v.distinct;
    leased = All-save task_key IsLeased u s.tasks leased v.leased;
    owned =
        IsOwned-renew s.tasks s.task_runs v.owned u c.task run (listed u same_id)
          (ground (arith, h.holds.active, same_run))
          (ground (
            arith,
            same_task,
            same_id,
            h.holds.own,
            get_by_id-id task_key task_id s.tasks c.task,
            h.task_found,
          ))
          under;
  }

succeeded-ne-running : RunStatus.succeeded ≢ RunStatus.running
succeeded-ne-running e = cc

failed-ne-running : RunStatus.failed ≢ RunStatus.running
failed-ne-running e = cc

module _ {A : Type 0} (P : Store → Type 0) (s : Store) (v : P s) where
  -- A bind keeps a predicate if what follows does, where the first part returned.
  pub after_lift :
      {B : Type 0} (r : Result B) (f : B → Exec A)
      → ((b : B) → r ≡ ok b → P (f b s).1)
      → P ((lift r >>= f) s).1
  after_lift (ok b) f k = k b refl
  after_lift (err e) f k = v

  pub after_claim :
      (task_id run_id : String) (now : Time) (f : Claim → Exec A)
      → ((c : Claim) → IsHeld task_id run_id now s c → P (f c s).1)
      → P ((require_claim task_id run_id now >>= f) s).1
  after_claim task_id run_id now f k = elim (require_claim-cases task_id run_id now s) [
    | inl (e, p) ↦
        subst (λ (q : Result A × Store). P q.1)
          (sym (bind-err (require_claim task_id run_id now) f s s e p)) v
    | inr (c, p, h) ↦
        subst (λ (q : Result A × Store). P q.1)
          (sym (bind-ok (require_claim task_id run_id now) f s s c p)) (k c h)
  ]

  pub after_task :
      (task_id : String) (f : Task → Exec A)
      → ((t : Task) → get_by_id task_key task_id s.tasks ≡ some t → P (f t s).1)
      → P ((require_task task_id >>= f) s).1
  unfolding require_task
  after_task task_id f k = elim (Option-cases (get_by_id task_key task_id s.tasks)) [
    | inl n ↦
        subst (λ (q : Result A × Store). P q.1)
          (sym (bind-err (require_task task_id) f s s (task_not_found task_id) (ground (arith, n))))
          v
    | inr (t, e) ↦
        subst (λ (q : Result A × Store). P q.1)
          (sym (bind-ok (require_task task_id) f s s t (ground (arith, e)))) (k t e)
  ]

module _ (task_id run_id : String) (now : Time) (s : Store) (v : IsConsistent s) where
  pub complete-IsConsistent : IsConsistent (complete task_id run_id now s).1
  unfolding complete complete_claim
  complete-IsConsistent =
      after_claim IsConsistent s v task_id run_id now (complete_claim now) λ c h.
        after_lift IsConsistent s v (finish_task c.task TaskStatus.succeeded now none)
          (λ u. save_claim u (completed_run c.task_run now))
          λ u e.
            let (leased, same_id, _) =
              finish_task-IsLeased c.task u TaskStatus.succeeded now none refl e in
            save_closed task_id run_id now s v c h u (completed_run c.task_run now) leased same_id
              refl succeeded-ne-running

  quarantine_claim-IsConsistent :
      (reason : String) (c : Claim)
      → IsHeld task_id run_id now s c
      → IsConsistent (quarantine_claim reason now c s).1
  unfolding quarantine_claim
  quarantine_claim-IsConsistent reason c h =
      after_lift IsConsistent s v (quarantine_task c.task reason now)
        (λ u. save_claim u (failed_run c.task_run "quarantined" reason now))
        λ u e.
          let (leased, same_id, _) = quarantine_task-IsLeased c.task u reason now e in
          save_closed task_id run_id now s v c h u (failed_run c.task_run "quarantined" reason now)
            leased same_id refl failed-ne-running

  retry_claim-IsConsistent :
      (error : String) (c : Claim)
      → IsHeld task_id run_id now s c
      → IsConsistent (retry_claim error now c s).1
  unfolding retry_claim
  retry_claim-IsConsistent error c h =
      after_lift IsConsistent s v (schedule_task_retry c.task now error)
        (λ plan. save_claim plan.task (retried_run c.task_run plan error now))
        λ plan e.
          let (leased, same_id, _) = schedule_task_retry-IsLeased c.task plan now error e in
          save_closed task_id run_id now s v c h plan.task (retried_run c.task_run plan error now)
            leased same_id refl failed-ne-running

  pub quarantine-IsConsistent :
      (reason : String) → IsConsistent (quarantine task_id run_id reason now s).1
  unfolding quarantine
  quarantine-IsConsistent reason =
      after_claim IsConsistent s v task_id run_id now (quarantine_claim reason now)
        (quarantine_claim-IsConsistent reason)

  fail_claim-IsConsistent :
      (error : String) (c : Claim)
      → IsHeld task_id run_id now s c
      → IsConsistent (fail_claim error now c s).1
  unfolding fail_claim
  fail_claim-IsConsistent error c h = elim (Bool-cases (should_retry_task c.task)) [
    | inl retry ↦ rw retry (retry_claim-IsConsistent error c h)
    | inr stop ↦ rw stop (quarantine_claim-IsConsistent error c h)
  ]

  pub fail-IsConsistent : (error : String) → IsConsistent (fail task_id run_id error now s).1
  unfolding fail
  fail-IsConsistent error =
      after_claim IsConsistent s v task_id run_id now (fail_claim error now)
        (fail_claim-IsConsistent error)

  pub renew_lease-IsConsistent : (ms : ℕ) → IsConsistent (renew_lease task_id run_id now ms s).1
  unfolding renew_lease renew_claim
  renew_lease-IsConsistent ms =
      after_claim IsConsistent s v task_id run_id now (renew_claim now ms) λ c h.
        after_lift IsConsistent s v (renew_task_lease c.task now ms default_lease_owner)
          (λ u. save_claim u (record c.task_run { updated_at = now }))
          λ u e.
            let old =
              All-get_by_id task_key IsLeased task_id s.tasks c.task v.leased h.task_found in
            let (leased, same_id, running, active) =
              renew_task_lease-IsLeased c.task u now ms default_lease_owner refl old e in
            save_renewed task_id run_id now s v c h u (record c.task_run { updated_at = now })
              leased same_id (running, active ∙ h.holds.active) refl refl

-- `requeue` takes a task that does not run.
pub requeue-IsConsistent :
    (task_id : String) (now : Time) (s : Store)
    → IsConsistent s
    → IsConsistent (requeue task_id now s).1
unfolding requeue requeue_task require_task
requeue-IsConsistent task_id now s v =
    after_task IsConsistent s v task_id (requeue_task task_id now) requeued
  where
    requeued :
        (t : Task)
        → get_by_id task_key task_id s.tasks ≡ some t
        → IsConsistent (requeue_task task_id now t s).1
    requeued t e = elim (Bool-cases (can_requeue t.status)) [
      | inl h ↦ rw h (record {
        distinct = Distinct-save task_key _ s.tasks v.distinct;
        leased = All-save task_key IsLeased _ s.tasks (ground arith) v.leased;
        owned =
            IsOwned-save_idle s.tasks s.task_runs v.owned _
              (λ old found. ground (arith, found, e, h, get_by_id-id task_key task_id s.tasks t));
      })
      | inr h ↦ rw h v
    ]
