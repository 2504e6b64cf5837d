-- ===== src/Queue/Tests.antt =====
-- The queue (packages/queue-adapters/src/index.ts) run on a small history: one task is enqueued and
-- claimed, and its worker finishes, fails or comes too late.
use gana_v.Prelude.{ap, String, ◌≡◌, refl, Option, none, some, [], ◌∷◌, arith}
use gana_v.Storage.{get_by_id, save}
use gana_v.Queue.Task.{
  TaskStatus, TaskKind, TriggerKind, RunStatus, Value, Attempt, Task, TaskRun, Claim,
}
use gana_v.Queue.Lifecycle.{Result, ok, err, lease_expired, start_task, finish_task}
use gana_v.Queue.Select.{next_ready_task}
use gana_v.Queue.Store.{Platform, Store}
use gana_v.Queue.Enqueue.{EnqueueInput, enqueue}
use gana_v.Queue.Claims.{task_run_id, recycle_expired, claimable, claim_next, claim, start_claim}
use gana_v.Queue.Adapter.{
  save_claim, require_claim, complete, complete_claim, quarantine, renew_lease, fail, summary,
}
use gana_v.Queue.Invariant.{IsConsistent}
use gana_v.Queue.Histories.{
  Reach, start, enqueues, claims, IsNewId, empty_store, Reach-IsConsistent, one_running_run,
}
use gana_v.Queue.Finished.{IsClosedRun}
use gana_v.Queue.Exclusion.{claim_exclusive}
use gana_v.Queue.Finished.{IsClosedRun}
use gana_v.Queue.Outcomes.{operations_need_claim, NeedsClaim}

abbrev platform : Platform
platform = record {
  sha256_hex = λ s. s;
  to_iso_string = λ t. "t";
  number_to_string = λ n. "n";
  json_stringify = λ v. "v";
}

abbrev order : EnqueueInput
order = record {
  id = some "task-a";
  kind = TaskKind.prediction;
  payload = ("traceId", Value.text "trace-7") ∷ [];
  priority = some 80;
  manifest_id = none;
  workflow_id = none;
  trace_id = none;
  correlation_id = none;
  source = none;
  scheduled_for = none;
  max_attempts = some 2;
}

-- The queue after the task is enqueued at 100, and after it is claimed at 200.
abbrev one_task : Store
one_task = (enqueue platform order 100 empty_store).1

abbrev one_claim : Store
one_claim = (claim platform "task-a" 200 one_task).1

order-IsNewId : IsNewId platform order 100 empty_store
unfolding get_by_id
order-IsNewId old e = cc

one_task-Reach : Reach platform one_task
one_task-Reach = enqueues order 100 order-IsNewId start

one_claim-Reach : Reach platform one_claim
one_claim-Reach = claims "task-a" 200 one_task-Reach

Reach-IsConsistent_example : IsConsistent one_claim
Reach-IsConsistent_example = Reach-IsConsistent platform one_claim-Reach

-- What the claim leaves, written out.
abbrev attempt : Attempt
attempt = record { started_at = 200; finished_at = none; error = none }

abbrev held_task : Task
held_task = record {
  id = "task-a";
  kind = TaskKind.prediction;
  status = TaskStatus.running;
  trigger_kind = TriggerKind.system;
  priority = 80;
  dedupe_key = none;
  manifest_id = none;
  workflow_id = none;
  trace_id = some "trace-7";
  correlation_id = none;
  source = none;
  payload = ("traceId", Value.text "trace-7") ∷ [];
  attempts = attempt ∷ [];
  scheduled_for = none;
  max_attempts = 2;
  last_error_message = none;
  lease_owner = some "in-memory-queue";
  lease_expires_at = some 300200;
  claimed_at = some 200;
  last_heartbeat_at = some 200;
  active_task_run_id = some "trn_task-a:n:t";
  created_at = 100;
  updated_at = 200;
}

abbrev held_run : TaskRun
held_run = record {
  id = "trn_task-a:n:t";
  task_id = "task-a";
  attempt_number = 1;
  status = RunStatus.running;
  worker_name = none;
  started_at = 200;
  finished_at = none;
  error = none;
  result = none;
  retry_scheduled_for = none;
  created_at = 200;
  updated_at = 200;
}

abbrev held : Claim
held = record { task = held_task; task_run = held_run }

abbrev held_store : Store
held_store = record { tasks = held_task ∷ []; task_runs = held_run ∷ [] }

claim_runs : claim platform "task-a" 200 one_task ≡ (ok (some held), held_store)
unfolding claim start_claim start_task recycle_expired claimable enqueue get_by_id save task_run_id
claim_runs = refl

claim_next_runs : claim_next platform none 200 one_task ≡ (ok (some held), held_store)
unfolding claim_next start_claim start_task recycle_expired next_ready_task enqueue get_by_id save
    task_run_id
claim_next_runs = refl

counts : (summary held_store).running ≡ 1
unfolding summary
counts = refl

one_running_run_example : ◌≡◌ {A = String} "trn_task-a:n:t" "trn_task-a:n:t"
unfolding claim start_claim start_task recycle_expired claimable enqueue get_by_id save task_run_id
one_running_run_example =
    one_running_run platform "trn_task-a:n:t" "trn_task-a:n:t" held_run held_run one_claim-Reach
      refl refl refl refl refl

claim_exclusive_example :
    (claim platform "task-a" 300199 (claim platform "task-a" 200 one_task).1).0 ≡ ok none
claim_exclusive_example =
    claim_exclusive platform "task-a" 200 300199 one_task held
      (Reach-IsConsistent platform one_task-Reach)
      (ap (λ (q : Result (Option Claim) × Store). q.0) claim_runs) (omega arith)

operations_need_claim_example :
    NeedsClaim "task-a" "trn_task-a:n:t" 300200
      (complete "task-a" "trn_task-a:n:t" 300200)
      held_store
    × NeedsClaim "task-a" "trn_task-a:n:t" 300200
        (fail "task-a" "trn_task-a:n:t" "boom" 300200)
        held_store
    × NeedsClaim "task-a" "trn_task-a:n:t" 300200
        (quarantine "task-a" "trn_task-a:n:t" "boom" 300200)
        held_store
    × NeedsClaim "task-a" "trn_task-a:n:t" 300200
        (renew_lease "task-a" "trn_task-a:n:t" 300200 1000)
        held_store
operations_need_claim_example =
    operations_need_claim "task-a" "trn_task-a:n:t" "boom" 300200 1000 held_store

too_late :
    complete "task-a" "trn_task-a:n:t" 300200 held_store
    ≡ (err (lease_expired "task-a" 300200), held_store)
unfolding complete require_claim get_by_id
too_late = refl

in_time : (summary (complete "task-a" "trn_task-a:n:t" 5000 held_store).1).succeeded ≡ 1
unfolding complete complete_claim save_claim require_claim get_by_id save summary finish_task
in_time = refl
