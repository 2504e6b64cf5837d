-- ===== src/ControlPlane/Adapter.antt =====
-- The queue as the control plane sees it: `TaskQueueAdapter`
-- (packages/queue-adapters/src/index.ts), with `tasks.list()` of the unit of work behind it. An
-- operation goes from a state to a result and a state; the in-memory adapter is one instance.
use gana_v.Prelude.{ℕ, String, Option, List}
use gana_v.Queue.Task.{Time, Task, Claim}
use gana_v.Queue.Lifecycle.{Result}
use gana_v.Queue.Store.{Platform, Store}
use gana_v.Queue.Enqueue.{EnqueueInput, enqueue}
use gana_v.Queue.Claims.{claim}
use gana_v.Queue.Adapter.{TaskSummary, renew_lease, complete, quarantine, fail, requeue, summary}

-- The operations that the cycles of the control plane call.
pub record TaskQueue : Type 1 where
  pub State : Type 0
  pub enqueue : EnqueueInput → Time → State → Result Task × State
  pub claim : String → Time → State → Result (Option Claim) × State
  pub renew_lease : String → String → Time → ℕ → State → Result Claim × State
  pub complete : String → String → Time → State → Result Claim × State
  pub fail : String → String → String → Time → State → Result Claim × State
  pub quarantine : String → String → String → Time → State → Result Claim × State
  pub requeue : String → Time → State → Result Task × State
  pub summary : State → TaskSummary
  pub list : State → List Task

abbrev pub in_memory : Platform → TaskQueue
in_memory p = record {
  State = Store;
  enqueue = enqueue p;
  claim = claim p;
  renew_lease = renew_lease;
  complete = complete;
  fail = fail;
  quarantine = quarantine;
  requeue = requeue;
  summary = summary;
  list = λ s. s.tasks;
}
