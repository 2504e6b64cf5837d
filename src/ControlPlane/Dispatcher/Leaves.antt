-- ===== src/ControlPlane/Dispatcher/Leaves.antt =====
-- Which tasks run when a dispatcher cycle returns
-- (packages/control-plane-runtime/src/dispatcher.ts), over the in-memory queue.
use mathlib.Core.Path.{subst}
use gana_v.Prelude.{ℕ, String, false, ◌≡◌, ◌⊎◌, inl, inr, List, All, Option, none, some, refl, ap}
use gana_v.Storage.{get_by_id}
use gana_v.Storage.Laws.{Distinct}
use gana_v.Queue.Task.{TaskStatus, Payload, Time, Claim, task_key, same_status}
use gana_v.Queue.Lifecycle.{Result, ok, err}
use gana_v.Queue.Store.{Platform, Store}
use gana_v.Queue.Enqueue.{enqueue}
use gana_v.Queue.Claims.{claim}
use gana_v.Queue.Adapter.{complete}
use gana_v.Queue.Held.{IsHeld}
use gana_v.Queue.Claimed.{IsClaim, claim-IsClaim}
use gana_v.Queue.Owners.{IsLeased}
use gana_v.Queue.Idling.{complete-keeps, fail-keeps, enqueue-keeps}
use gana_v.Queue.Running.{
  RunsWithin, save_idle_within, RunsWithin-drop, IsRunning, IsRunning-allowed, runs_now,
  ClaimsWithin, claim-ClaimsWithin,
}
use gana_v.ControlPlane.Adapter.{in_memory}
use gana_v.ControlPlane.Messages.{error_message}
use gana_v.ControlPlane.Dispatcher.Work.{Work, output, thrown, Workers, work}
use gana_v.ControlPlane.Dispatcher.Claims.{
  Execution, after_failed, fail_execution, after_completed, after_work, execute_claim,
  push_execution, after_claimed,
}
use gana_v.ControlPlane.Dispatcher.Manifest.{Dispatch, run_manifest}
use gana_v.ControlPlane.Dispatcher.Returned.{Ending, always-Ending}
use gana_v.ControlPlane.Dispatcher.Keeps.{run_manifest-keeps}
use gana_v.ControlPlane.Dispatcher.Answers.{EndsAs, claim-IsAnswered}

-- A task that has ended does not run.
ended_idle :
    (r : Work Payload) (status : TaskStatus)
    → EndsAs r status
    → same_status status TaskStatus.running ≡ false
ended_idle (output done) status e = ap (λ st. same_status st TaskStatus.running) e
ended_idle (thrown message) status (inl e) = ap (λ st. same_status st TaskStatus.running) e
ended_idle (thrown message) status (inr e) = ap (λ st. same_status st TaskStatus.running) e

-- A call keeps the store in order and starts no task for long: where ids are distinct, tasks have
-- lease fields exactly while they run, and only tasks with an id that `B` allows run, the same holds
-- after it, whatever `B` is.
abbrev pub KeepsRunning : {A : Type 0} → (Store → A × Store) → Type 1
KeepsRunning f = (B : String → Type 0) (s : Store) → RunsWithin B s → RunsWithin B (f s).1

module _ (p : Platform) (w : Workers (in_memory p)) (now : Time) where
  module _ (B : String → Type 0) (c : Claim) where
    after_failed-RunsWithin :
        (message : String) (r : Result Claim × Store)
        → RunsWithin B r.1
        → RunsWithin B (after_failed p (in_memory p) w now c message r).1
    after_failed-RunsWithin message (ok _, s) v = v
    after_failed-RunsWithin message (err e, s) v = v

    fail_execution-RunsWithin :
        (message : String) (s : Store)
        → RunsWithin B s
        → RunsWithin B (fail_execution p (in_memory p) w now c message s).1
    fail_execution-RunsWithin message s v =
        after_failed-RunsWithin message _
          (fail-keeps (RunsWithin B) (save_idle_within B) now s v c.task.id c.task_run.id message)

    after_completed-RunsWithin :
        (done : Payload) (r : Result Claim × Store)
        → RunsWithin B r.1
        → RunsWithin B (after_completed p (in_memory p) w now c done r).1
    after_completed-RunsWithin done (ok _, s) v = v
    after_completed-RunsWithin done (err e, s) v = fail_execution-RunsWithin (error_message p e) s v

    after_work-RunsWithin :
        (r : Work Payload × Store)
        → RunsWithin B r.1
        → RunsWithin B (after_work p (in_memory p) w now c r).1
    after_work-RunsWithin (output done, s) v =
        after_completed-RunsWithin done (complete c.task.id c.task_run.id now s)
          (complete-keeps (RunsWithin B) (save_idle_within B) now s v c.task.id c.task_run.id)
    after_work-RunsWithin (thrown message, s) v = fail_execution-RunsWithin message s v

  module _ (works : (c : Claim) → KeepsRunning (work p (in_memory p) w now c)) (E : Type 0)
      (throws : (c : Claim) (s : Store)
        → Distinct task_key s.tasks
        → All IsLeased s.tasks
        → IsHeld c.task.id c.task_run.id now s c
        → Ending E (λ _ _. Unit) (execute_claim p (in_memory p) w now c s))
      (B : String → Type 0) where
    -- A claim of `k` that is executed no longer runs.
    push-RunsWithin :
        (k : String) (c : Claim) (executions : List Execution) (s : Store)
        → c.task.id ≡ k
        → RunsWithin (λ j. B j ⊎ (j ≡ k)) s
        → (r : Result Execution × Store) → execute_claim p (in_memory p) w now c s ≡ r
        → Ending E (λ _ _. Unit) r
        → Ending E (λ _. RunsWithin B) (push_execution p (in_memory p) w now executions r)
    unfolding execute_claim
    push-RunsWithin k c executions s named v (err e, after) q h = h
    push-RunsWithin k c executions s named v (ok x, after) q h =
        let left = works c (λ j. B j ⊎ (j ≡ k)) s v in
        let ((u, found, free, ended), records) =
          claim-IsAnswered p w now c s after x left.leased q in
        RunsWithin-drop B k after u
          (subst (λ r. RunsWithin (λ j. B j ⊎ (j ≡ k)) r.1) q
            (after_work-RunsWithin (λ j. B j ⊎ (j ≡ k)) c (work p (in_memory p) w now c s) left))
          (subst (λ i. get_by_id task_key i after.tasks ≡ some u) named found)
          (ended_idle x.result u.status ended)

    after_claimed-RunsWithin :
        (k : String) (executions : List Execution) (r : Result (Option Claim) × Store)
        → ClaimsWithin B k r
        → IsClaim now r
        → Ending E (λ _. RunsWithin B) (after_claimed p (in_memory p) w now executions r)
    after_claimed-RunsWithin k executions (ok none, s) v h = v
    after_claimed-RunsWithin k executions (ok (some c), s) (named, v) held =
        push-RunsWithin k c executions s named v (execute_claim p (in_memory p) w now c s) refl
          (throws c s v.distinct v.leased held)
    after_claimed-RunsWithin k executions (err e, s) v h = absurd h

    pub run_manifest-RunsWithin :
        ((ids : List String) → KeepsRunning (w.publish ids now))
        → (limit : ℕ) (manifest_id : String) (s : Store) → RunsWithin B s
        → Ending E (λ _. RunsWithin B) (run_manifest p (in_memory p) w now limit manifest_id s)
    unfolding enqueue
    run_manifest-RunsWithin publishes limit =
        run_manifest-keeps p (in_memory p) w now limit E (λ _. RunsWithin B)
          (λ id executions s b v.
            after_claimed-RunsWithin id executions (claim p id now s)
              (claim-ClaimsWithin p B id now s v) (claim-IsClaim p id now s))
          (λ input executions s v.
            enqueue-keeps (RunsWithin B) (save_idle_within B) now s v p input)
          (λ ids executions s v. publishes ids B s v)

-- Over the in-memory queue and a store with distinct task ids and lease fields exactly on the running
-- tasks. The workers and the publisher are assumed to leave every such store as such a store, and to
-- leave no task running that did not run before their call. Then, when the work of a dispatcher cycle
-- on a manifest returns, every task that runs in the store it leaves ran before the cycle: each task
-- that the cycle claimed has been stopped again.
pub run_manifest-leaves_none :
    (p : Platform) (w : Workers (in_memory p)) (now : Time) (limit : ℕ)
    → ((c : Claim) → KeepsRunning (work p (in_memory p) w now c))
    → ((ids : List String) → KeepsRunning (w.publish ids now))
    → (manifest_id : String) (s after : Store) (d : Dispatch) → Distinct task_key s.tasks
    → All IsLeased s.tasks
    → run_manifest p (in_memory p) w now limit manifest_id s ≡ (ok d, after)
    → (k : String) → IsRunning k after
    → IsRunning k s
run_manifest-leaves_none p w now limit works publishes manifest_id s after d distinct leased e k r =
    let B : String → Type 0 = λ j. IsRunning j s in
    let within : RunsWithin B after = subst (Ending Unit (λ _. RunsWithin B)) e (
      run_manifest-RunsWithin p w now works Unit
        (λ c s distinct leased h. always-Ending (execute_claim p (in_memory p) w now c s) tt) B
        publishes limit manifest_id s (runs_now s distinct leased)) in
    IsRunning-allowed B after k within r
