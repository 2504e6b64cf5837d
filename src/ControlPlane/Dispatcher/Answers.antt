-- ===== src/ControlPlane/Dispatcher/Answers.antt =====
-- What the dispatcher leaves of a claim that it has executed
-- (packages/control-plane-runtime/src/dispatcher.ts), over the in-memory queue.
use mathlib.Core.Path.{subst}
use gana_v.Prelude.{All, String, ◌≡◌, ◌⊎◌, refl, sym, ap, ◌∙◌, inl, inr, Option, none, some}
use gana_v.Prelude.Texts.{str_eq_refl}
use gana_v.Storage.{get_by_id}
use gana_v.Storage.Laws.{get_by_id-save, get_by_id-id}
use gana_v.Queue.Task.{TaskStatus, Payload, Time, Task, TaskRun, Claim, task_key}
use gana_v.Queue.Lifecycle.{QueueError, Result, ok, err}
use gana_v.Queue.Store.{Platform, Store}
use gana_v.Queue.Adapter.{complete, fail, completed_run, retried_run, failed_run}
use gana_v.Queue.Held.{IsHeld}
use gana_v.Queue.Owners.{IsLeased}
use gana_v.Queue.Finished.{IsFinished}
use gana_v.Queue.Outcomes.{saved, complete-finishes, fail-outcome, operations_need_claim}
use gana_v.ControlPlane.Adapter.{in_memory}
use gana_v.ControlPlane.Messages.{error_message}
use gana_v.ControlPlane.Dispatcher.Work.{Work, output, thrown, Workers, work}
use gana_v.ControlPlane.Dispatcher.Returned.{Ending}
use gana_v.ControlPlane.Dispatcher.Claims.{
  Execution, after_failed, fail_execution, after_completed, after_work, execute_claim,
}

-- How a task has ended, by what the worker left.
abbrev pub EndsAs : Work Payload → TaskStatus → Type 0
EndsAs (output _) status = status ≡ TaskStatus.succeeded
EndsAs (thrown _) status = (status ≡ TaskStatus.queued) ⊎ (status ≡ TaskStatus.quarantined)

-- The task `k` runs under no run, and has ended as the execution says.
abbrev pub IsAnswered : String → Execution → Store → Type 0
IsAnswered k x s =
    (u : Task) × (get_by_id task_key k s.tasks ≡ some u)
    × (u.active_task_run_id ≡ none)
    × EndsAs x.result u.status

abbrev Answers : String → Result Execution × Store → Type 0
Answers k (ok x, s) = IsAnswered k x s
Answers k (err e, s) = Unit

saved_task_id :
    (u : Task) (run : TaskRun) (s : Store) → get_by_id task_key u.id (saved u run s).tasks ≡ some u
saved_task_id u run s = rw (get_by_id-save task_key u u.id s.tasks, str_eq_refl u.id) refl

-- A task that is finished and saved in place of the one that a claim holds.
finished-IsAnswered :
    (k j : String) (now : Time) (s : Store) (c : Claim) (u : Task) (run : TaskRun)
    (outcome : TaskStatus) (error : Option String) (x : Execution)
    → IsHeld k j now s c
    → IsFinished outcome error now c.task u
    → EndsAs x.result outcome
    → IsAnswered k x (saved u run s)
finished-IsAnswered k j now s c u run outcome error x h f e =
    let same : u.id ≡ k = f.same_id ∙ get_by_id-id task_key k s.tasks c.task h.task_found in
    (
      u,
      subst (λ i. get_by_id task_key i (saved u run s).tasks ≡ some u) same (saved_task_id u run s),
      f.free.2,
      subst (EndsAs x.result) (sym f.status) e,
    )

module _ (p : Platform) (w : Workers (in_memory p)) (now : Time) (c : Claim) where
  fail_execution-Answers :
      (message : String) (s : Store)
      → All IsLeased s.tasks
      → Answers c.task.id (fail_execution p (in_memory p) w now c message s)
  fail_execution-Answers message s v =
      let k = c.task.id in
      let j = c.task_run.id in
      let x : Execution = record { claim = c; result = thrown message } in
      let read : Result Claim × Store → Type 0 =
        λ r. Answers k (after_failed p (in_memory p) w now c message r) in
      elim (operations_need_claim k j message now 0 s).1 [
        | inl (e, q) ↦ subst read (sym q) tt
        | inr (d, h) ↦ elim (fail-outcome k j now s v d h message) [
          | inl (l, (plan, q, f, t1, t2, t3, t4, t5)) ↦ subst read (sym q) (
              finished-IsAnswered k j now s d plan.task (retried_run d.task_run plan message now)
                TaskStatus.queued (some message) x h f (inl refl))
          | inr (l, (u, q, f, r)) ↦ subst read (sym q) (
              finished-IsAnswered k j now s d u (failed_run d.task_run "quarantined" message now)
                TaskStatus.quarantined (some message) x h f (inr refl))
        ]
      ]

  after_completed-Answers :
      (done : Payload) (s : Store)
      → All IsLeased s.tasks
      → Answers c.task.id
          (after_completed p (in_memory p) w now c done (complete c.task.id c.task_run.id now s))
  after_completed-Answers done s v =
      let k = c.task.id in
      let j = c.task_run.id in
      let x : Execution = record { claim = c; result = output done } in
      let read : Result Claim × Store → Type 0 =
        λ r. Answers k (after_completed p (in_memory p) w now c done r) in
      elim (operations_need_claim k j "" now 0 s).0 [
        | inl (e, q) ↦ subst read (sym q) (fail_execution-Answers (error_message p e) s v)
        | inr (d, h) ↦
            let (u, q, f, r) = complete-finishes k j now s v d h in
            subst read (sym q) (
              finished-IsAnswered k j now s d u (completed_run d.task_run now) TaskStatus.succeeded
                none x h f refl)
      ]

  after_work-Answers :
      (r : Work Payload × Store)
      → All IsLeased r.1.tasks
      → Answers c.task.id (after_work p (in_memory p) w now c r)
  after_work-Answers (output done, s) v = after_completed-Answers done s v
  after_work-Answers (thrown message, s) v = fail_execution-Answers message s v

-- An execution records its claim, and what the worker left. Only where the worker has returned and
-- the queue did not take its result, it records the error of the queue.
abbrev pub Records : Platform → Time → Claim → Work Payload × Store → Execution → Type 0
Records p now c (left, s) x =
    (x.claim ≡ c)
    × ((x.result ≡ left)
        ⊎ ((done : Payload) × (e : QueueError) × (left ≡ output done)
            × ((complete c.task.id c.task_run.id now s).0 ≡ err e)
            × (x.result ≡ thrown (error_message p e))))

module _ (p : Platform) (w : Workers (in_memory p)) (now : Time) (c : Claim) where
  after_failed-Records :
      (message : String) (r : Result Claim × Store)
      → Ending Unit
          (λ x _. (x.claim ≡ c) × (x.result ≡ thrown message))
          (after_failed p (in_memory p) w now c message r)
  after_failed-Records message (ok d, s) = (refl, refl)
  after_failed-Records message (err e, s) = tt

  after_completed-Records :
      (done : Payload) (s : Store) (r : Result Claim × Store)
      → complete c.task.id c.task_run.id now s ≡ r
      → Ending Unit
          (λ x _. Records p now c (output done, s) x)
          (after_completed p (in_memory p) w now c done r)
  after_completed-Records done s (ok d, s') q = (refl, inl refl)
  after_completed-Records done s (err e, s') q =
      weaken (fail_execution p (in_memory p) w now c (error_message p e) s') (
        after_failed-Records (error_message p e)
          (fail c.task.id c.task_run.id (error_message p e) now s'))
    where
      weaken :
          (y : Result Execution × Store)
          → Ending Unit (λ x _. (x.claim ≡ c) × (x.result ≡ thrown (error_message p e))) y
          → Ending Unit (λ x _. Records p now c (output done, s) x) y
      weaken (ok x, _) (same, recorded) = (same, inr (done, e, refl, ap (λ z. z.0) q, recorded))
      weaken (err f, _) h = tt

  after_work-Records :
      (r : Work Payload × Store)
      → Ending Unit (λ x _. Records p now c r x) (after_work p (in_memory p) w now c r)
  after_work-Records (output done, s) =
      after_completed-Records done s (complete c.task.id c.task_run.id now s) refl
  after_work-Records (thrown message, s) =
      weaken (fail_execution p (in_memory p) w now c message s)
        (after_failed-Records message (fail c.task.id c.task_run.id message now s))
    where
      weaken :
          (y : Result Execution × Store)
          → Ending Unit (λ x _. (x.claim ≡ c) × (x.result ≡ thrown message)) y
          → Ending Unit (λ x _. Records p now c (thrown message, s) x) y
      weaken (ok x, _) (same, recorded) = (same, inl recorded)
      weaken (err f, _) h = tt

-- Over the in-memory queue, where a worker leaves tasks that have lease fields exactly while they
-- run: an execution that is returned records the claim and what the worker left, or, where the
-- worker returned and the queue did not take its result, the error of the queue. It leaves the
-- claimed task under no run: succeeded where it records a result, and otherwise queued for a retry
-- or quarantined.
pub claim-IsAnswered :
    (p : Platform) (w : Workers (in_memory p)) (now : Time) (c : Claim) (s after : Store)
    (x : Execution)
    → All IsLeased (work p (in_memory p) w now c s).1.tasks
    → execute_claim p (in_memory p) w now c s ≡ (ok x, after)
    → IsAnswered c.task.id x after × Records p now c (work p (in_memory p) w now c s) x
unfolding execute_claim
claim-IsAnswered p w now c s after x v e = (
  subst (Answers c.task.id) e (after_work-Answers p w now c (work p (in_memory p) w now c s) v),
  subst (Ending Unit (λ x _. Records p now c (work p (in_memory p) w now c s) x)) e
      (after_work-Records p w now c (work p (in_memory p) w now c s)),
)
