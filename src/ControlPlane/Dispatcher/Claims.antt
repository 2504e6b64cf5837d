-- ===== src/ControlPlane/Dispatcher/Claims.antt =====
-- The claims that a dispatcher cycle executes
-- (packages/control-plane-runtime/src/dispatcher.ts).
use gana_v.Prelude.{
  ℕ, String, Bool, true, false, Option, none, some, List, [], ◌∷◌, ◌++◌, leb, length,
}
use gana_v.Queue.Task.{TaskKind, Payload, Time, Task, Claim}
use gana_v.Queue.Lifecycle.{Result, ok, err}
use gana_v.Queue.Store.{Platform}
use gana_v.ControlPlane.Adapter.{TaskQueue}
use gana_v.ControlPlane.Messages.{error_message}
use gana_v.ControlPlane.Dispatcher.{list_queued_manifest_tasks}
use gana_v.ControlPlane.Dispatcher.Work.{Work, output, thrown, Workers, work}

-- `DispatcherTaskExecution`: it has succeeded where there is an output, and failed with an error.
pub record Execution : Type 0 where
  pub claim : Claim
  pub result : Work Payload

abbrev pub has_succeeded : Execution → Bool
has_succeeded execution = elim execution.result [ output _ ↦ true | thrown _ ↦ false ]

module _ (p : Platform) (q : TaskQueue) (w : Workers q) (now : Time) where
  -- After `failClaim`, whose error leaves the function.
  abbrev pub after_failed : Claim → String → Result Claim × q.State → Result Execution × q.State
  after_failed c message (ok _, s) = (ok (record { claim = c; result = thrown message }), s)
  after_failed c message (err e, s) = (err e, s)

  abbrev pub fail_execution : Claim → String → q.State → Result Execution × q.State
  fail_execution c message s = after_failed c message (q.fail c.task.id c.task_run.id message now s)

  -- After `completeClaim`, whose error fails the claim.
  abbrev pub after_completed : Claim → Payload → Result Claim × q.State → Result Execution × q.State
  after_completed c done (ok _, s) = (ok (record { claim = c; result = output done }), s)
  after_completed c done (err e, s) = fail_execution c (error_message p e) s

  abbrev pub after_work : Claim → Work Payload × q.State → Result Execution × q.State
  after_work c (output done, s) = after_completed c done (q.complete c.task.id c.task_run.id now s)
  after_work c (thrown message, s) = fail_execution c message s

  unfoldable pub execute_claim : Claim → q.State → Result Execution × q.State
  unfolding work error_message
  execute_claim c s = after_work c (work p q w now c s)

  abbrev pub push_execution :
      List Execution → Result Execution × q.State → Result (List Execution) × q.State
  push_execution executions (ok execution, s) = (ok (executions ++ execution ∷ []), s)
  push_execution executions (err e, s) = (err e, s)

  abbrev pub after_claimed :
      List Execution → Result (Option Claim) × q.State → Result (List Execution) × q.State
  after_claimed executions (ok none, s) = (ok executions, s)
  after_claimed executions (ok (some c), s) = push_execution executions (execute_claim c s)
  after_claimed executions (err e, s) = (err e, s)

  -- The loop of `processQueuedTasks`: it returns once `max_claims` executions are there.
  unfoldable pub process_tasks :
      ℕ → List Task → List Execution → q.State → Result (List Execution) × q.State
  unfolding execute_claim
  process_tasks max_claims [] executions s = (ok executions, s)
  process_tasks max_claims (t ∷ ts) executions s = elim (leb max_claims (length executions)) [
    | true ↦ (ok executions, s)
    | false ↦
        let (r, s') = after_claimed executions (q.claim t.id now s) in
        elim r [ err e ↦ (err e, s') | ok more ↦ process_tasks max_claims ts more s' ]
  ]

  unfoldable pub process_queued_tasks :
      String → ℕ → TaskKind → List Execution → q.State → Result (List Execution) × q.State
  unfolding list_queued_manifest_tasks process_tasks
  process_queued_tasks manifest_id max_claims kind executions s =
      process_tasks max_claims (list_queued_manifest_tasks manifest_id kind now (q.list s))
        executions s

  -- One kind after the other, until an error.
  unfoldable pub process_kinds :
      String → ℕ → List TaskKind → List Execution → q.State → Result (List Execution) × q.State
  unfolding process_queued_tasks
  process_kinds manifest_id max_claims [] executions s = (ok executions, s)
  process_kinds manifest_id max_claims (kind ∷ kinds) executions s =
      let (r, s') = process_queued_tasks manifest_id max_claims kind executions s in
      elim r [ err e ↦ (err e, s') | ok more ↦ process_kinds manifest_id max_claims kinds more s' ]
