-- ===== src/Queue/Outcomes.antt =====
-- What the worker's operations on a claim return and leave (packages/queue-adapters/src/index.ts).
use mathlib.Core.Path.{subst}
use gana_v.Prelude.{
  ℕ, ◌+◌, ◌*◌, ◌<◌, ◌≤◌, max, String, ◌≡◌, refl, sym, ◌∙◌, ◌⊎◌, inl, inr, none, some, arith,
  Bool-cases, Option-cases, length, last, All,
}
use gana_v.Storage.{save}
use gana_v.Storage.Laws.{All-get_by_id}
use gana_v.Queue.Task.{
  RunStatus, TaskStatus, TriggerKind, Time, Attempt, Task, TaskRun, Claim, task_key, run_key,
}
use gana_v.Queue.Lifecycle.{
  QueueError, Result, ok, err, finish_task, quarantine_task, schedule_task_retry, should_retry_task,
  RetryPlan,
}
use gana_v.Queue.Store.{Store, Exec, ◌>>=◌, bind-ok, bind-err, lift-ok}
use gana_v.Queue.Adapter.{
  require_claim, save_claim, renew_lease, renew_claim, complete, complete_claim, completed_run,
  fail, fail_claim, retry_claim, retried_run, failed_run, quarantine, quarantine_claim,
}
use gana_v.Queue.Owners.{IsLeased}
use gana_v.Queue.Finished.{
  IsClosedRun, IsFinished, finish_task-IsFinished, quarantine_task-IsFinished,
  schedule_task_retry-IsFinished,
}
use gana_v.Queue.Held.{IsHeld, require_claim-cases, Holds-ensure_task_lifecycle_match}

-- The store after both entities of a claim are saved.
abbrev pub saved : Task → TaskRun → Store → Store
saved task run s = record {
  tasks = save task_key task s.tasks;
  task_runs = save run_key run s.task_runs;
}

-- `fail` has planned a retry: the task is queued again, triggered as a retry and due one minute
-- later for each attempt so far, and the run has failed.
abbrev pub HasRetried : String → Time → Store → Claim → Result Claim × Store → Type 0
HasRetried error now s c outcome =
    (plan : RetryPlan) × (outcome ≡ (
      ok (record { task = plan.task; task_run = retried_run c.task_run plan error now }),
      saved plan.task (retried_run c.task_run plan error now) s,
    ))
    × IsFinished TaskStatus.queued (some error) now c.task plan.task
    × (plan.task.trigger_kind ≡ TriggerKind.retry)
    × (plan.task.scheduled_for ≡ some plan.retry_scheduled_for)
    × (plan.retry_scheduled_for ≡ now + 60000 * max (length c.task.attempts) 1)
    × IsClosedRun RunStatus.failed (some error) now c.task_run
        (retried_run c.task_run plan error now)
    × ((retried_run c.task_run plan error now).retry_scheduled_for ≡ some plan.retry_scheduled_for)

-- The task is put aside, and the run has failed.
abbrev pub HasQuarantined : String → Time → Store → Claim → Result Claim × Store → Type 0
HasQuarantined error now s c outcome =
    (u : Task) × (outcome ≡ (
      ok (record { task = u; task_run = failed_run c.task_run "quarantined" error now }),
      saved u (failed_run c.task_run "quarantined" error now) s,
    ))
    × IsFinished TaskStatus.quarantined (some error) now c.task u
    × IsClosedRun RunStatus.failed (some error) now c.task_run
        (failed_run c.task_run "quarantined" error now)

module _ (task_id run_id : String) (now : Time) (s : Store) (leased : All IsLeased s.tasks)
    (c : Claim) (h : IsHeld task_id run_id now s c) where
  required : require_claim task_id run_id now s ≡ (ok c, s)
  unfolding require_claim
  required = ground (
    arith,
    h.task_found,
    h.run_found,
    Holds-ensure_task_lifecycle_match c.task c.task_run task_id now h.holds,
  )

  has_attempt : (attempt : Attempt) × (last c.task.attempts ≡ some attempt)
  has_attempt =
      let old = All-get_by_id task_key IsLeased task_id s.tasks c.task leased h.task_found in
      elim (Option-cases (last c.task.attempts)) [
        | inl n ↦ absurd (ground (arith, n, h.holds.task_runs))
        | inr found ↦ found
      ]

  pub complete-finishes :
      (u : Task) × (complete task_id run_id now s ≡ (
        ok (record { task = u; task_run = completed_run c.task_run now }),
        saved u (completed_run c.task_run now) s,
      ))
      × IsFinished TaskStatus.succeeded none now c.task u
      × IsClosedRun RunStatus.succeeded c.task_run.error now c.task_run
          (completed_run c.task_run now)
  unfolding complete complete_claim save_claim
  complete-finishes =
      let (a, found) = has_attempt in
      let (u, e, finished) =
        finish_task-IsFinished c.task now none a h.holds.task_runs found TaskStatus.succeeded in
      (
        u,
        bind-ok (require_claim task_id run_id now) (complete_claim now) s s c required
            ∙ lift-ok (finish_task c.task TaskStatus.succeeded now none)
                (λ u. save_claim u (completed_run c.task_run now)) s u e,
        finished,
        record {
          status = refl;
          message = refl;
          finished = refl;
          same_id = refl;
          same_task = refl;
          same_attempt = refl;
        },
      )

  retries : (error : String) → HasRetried error now s c (retry_claim error now c s)
  unfolding retry_claim save_claim
  retries error =
      let (a, found) = has_attempt in
      let (plan, e, finished, retried, due, later) =
        schedule_task_retry-IsFinished c.task now (some error) a h.holds.task_runs found error
          refl in
      (
        plan,
        lift-ok (schedule_task_retry c.task now error)
            (λ plan. save_claim plan.task (retried_run c.task_run plan error now)) s plan e,
        finished,
        retried,
        due,
        later,
        record {
          status = refl;
          message = refl;
          finished = refl;
          same_id = refl;
          same_task = refl;
          same_attempt = refl;
        },
        refl,
      )

  quarantines : (error : String) → HasQuarantined error now s c (quarantine_claim error now c s)
  unfolding quarantine_claim save_claim
  quarantines error =
      let (a, found) = has_attempt in
      let (u, e, finished) =
        quarantine_task-IsFinished c.task now (some error) a h.holds.task_runs found error refl in
      (
        u,
        lift-ok (quarantine_task c.task error now)
            (λ u. save_claim u (failed_run c.task_run "quarantined" error now)) s u e,
        finished,
        record {
          status = refl;
          message = refl;
          finished = refl;
          same_id = refl;
          same_task = refl;
          same_attempt = refl;
        },
      )

  fail_claim-outcome :
      (error : String)
      → ((length c.task.attempts < c.task.max_attempts)
          × HasRetried error now s c (fail_claim error now c s))
        ⊎ ((c.task.max_attempts ≤ length c.task.attempts)
            × HasQuarantined error now s c (fail_claim error now c s))
  unfolding fail_claim
  fail_claim-outcome error = elim (Bool-cases (should_retry_task c.task)) [
    | inl again ↦ inl (unfold should_retry_task in ground arith, rw again (retries error))
    | inr over ↦ inr (unfold should_retry_task in ground arith, rw over (quarantines error))
  ]

  pub fail-outcome :
      (error : String)
      → ((length c.task.attempts < c.task.max_attempts)
          × HasRetried error now s c (fail task_id run_id error now s))
        ⊎ ((c.task.max_attempts ≤ length c.task.attempts)
            × HasQuarantined error now s c (fail task_id run_id error now s))
  unfolding fail
  fail-outcome error =
      subst
        (λ (q : Result Claim × Store).
          ((length c.task.attempts < c.task.max_attempts) × HasRetried error now s c q)
          ⊎ ((c.task.max_attempts ≤ length c.task.attempts) × HasQuarantined error now s c q))
        (sym (bind-ok (require_claim task_id run_id now) (fail_claim error now) s s c required))
        (fail_claim-outcome error)

-- What a worker's operation returned comes from a claim that is held, and what it threw changed
-- nothing.
abbrev pub NeedsClaim : String → String → Time → (Store → Result Claim × Store) → Store → Type 0
NeedsClaim task_id run_id now operation s =
    ((e : QueueError) × (operation s ≡ (err e, s))) ⊎ ((c : Claim) × IsHeld task_id run_id now s c)

needs_claim :
    (task_id run_id : String) (now : Time) (f : Claim → Exec Claim) (s : Store)
    → NeedsClaim task_id run_id now (require_claim task_id run_id now >>= f) s
needs_claim task_id run_id now f s = elim (require_claim-cases task_id run_id now s) [
  | inl (e, p) ↦ inl (e, bind-err (require_claim task_id run_id now) f s s e p)
  | inr (c, p, h) ↦ inr (c, h)
]

-- `complete`, `fail`, `quarantine` and `renewLease` either throw and leave the store as it is, or
-- the task and the run that they name are in the store, both run, the run is the task's active one,
-- and the task's lease ends after `now`.
pub operations_need_claim :
    (task_id run_id text : String) (now : Time) (ms : ℕ) (s : Store)
    → NeedsClaim task_id run_id now (complete task_id run_id now) s
      × NeedsClaim task_id run_id now (fail task_id run_id text now) s
      × NeedsClaim task_id run_id now (quarantine task_id run_id text now) s
      × NeedsClaim task_id run_id now (renew_lease task_id run_id now ms) s
unfolding complete fail quarantine renew_lease
operations_need_claim task_id run_id text now ms s = (
  needs_claim task_id run_id now (complete_claim now) s,
  needs_claim task_id run_id now (fail_claim text now) s,
  needs_claim task_id run_id now (quarantine_claim text now) s,
  needs_claim task_id run_id now (renew_claim now ms) s,
)
