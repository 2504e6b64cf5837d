-- ===== src/ControlPlane/Dispatcher/Tests.antt =====
-- A dispatcher cycle for one prediction task (packages/control-plane-runtime/src/dispatcher.ts).
use mathlib.Core.Path.{subst}
use gana_v.Prelude.{◌≡◌, ◌≤◌, refl, sym, length, String, none, some, Option, [], ◌∷◌, true}
use gana_v.Storage.{get_by_id, save}
use gana_v.Queue.Task.{TaskStatus, TaskKind, TriggerKind, RunStatus, Value, Task, TaskRun, Claim}
use gana_v.Queue.Lifecycle.{Result, ok, err, start_task, finish_task}
use gana_v.Queue.Store.{Platform, Store}
use gana_v.Queue.Enqueue.{EnqueueInput, enqueue}
use gana_v.Queue.Claims.{claim, claimable, recycle_expired, start_claim, task_run_id}
use gana_v.Queue.Adapter.{complete, complete_claim, require_claim, save_claim}
use gana_v.Queue.Histories.{
  Reach, start, enqueues, claims, IsNewId, empty_store, Reach-IsConsistent,
}
use gana_v.ControlPlane.Adapter.{in_memory}
use gana_v.ControlPlane.Dispatcher.{payload_fixture_id, payload_text}
use gana_v.ControlPlane.Dispatcher.Work.{
  output, thrown, not_published, Workers, work, research_work, prediction_work, replay_work,
}
use gana_v.ControlPlane.Dispatcher.Claims.{Execution, execute_claim}
use gana_v.ControlPlane.Dispatcher.Manifest.{Dispatch, run_manifest}
use gana_v.Queue.Running.{RunsWithin, IsRunning}
use gana_v.ControlPlane.Dispatcher.Leaves.{run_manifest-leaves_none}
use gana_v.ControlPlane.Dispatcher.Returns.{run_manifest-returns}
use gana_v.Queue.Held.{IsHeld}
use gana_v.ControlPlane.Dispatcher.Answers.{IsAnswered, Records, claim-IsAnswered}

abbrev platform : Platform
platform = record {
  sha256_hex = λ s. s;
  to_iso_string = λ t. "t";
  number_to_string = λ n. "n";
  json_stringify = λ v. "v";
}

abbrev order : EnqueueInput
order = record {
  id = some "task-a";
  kind = TaskKind.prediction;
  payload = ("fixtureId", Value.text "fx-1") ∷ [];
  priority = none;
  manifest_id = some "m-1";
  workflow_id = none;
  trace_id = none;
  correlation_id = none;
  source = none;
  scheduled_for = none;
  max_attempts = none;
}

abbrev waiting : Store
waiting = (enqueue platform order 100 empty_store).1

order-IsNewId : IsNewId platform order 100 empty_store
unfolding get_by_id
order-IsNewId old e = cc

waiting-Reach : Reach platform waiting
waiting-Reach = enqueues order 100 order-IsNewId start

abbrev started : Store
started = (claim platform "task-a" 200 waiting).1

started-Reach : Reach platform started
started-Reach = claims "task-a" 200 waiting-Reach

-- Workers that leave the queue alone: scoring returns, every other worker throws.
abbrev workers : Workers (in_memory platform)
workers = record {
  ingest = λ envelope s. (thrown "no provider", s);
  has_fixture = λ id s. true;
  research = λ id now s. (thrown "no model", s);
  score_fixture = λ id task now s. (output (("fixtureId", Value.text id) ∷ []), s);
  validate = λ now s. (thrown "nothing to validate", s);
  replay_sandbox = λ profile pack sha now s. (thrown "no sandbox", s);
  publish = λ ids now s. (not_published, s);
}

abbrev claimed_task : Task
claimed_task = record {
  id = "task-a";
  kind = TaskKind.prediction;
  status = TaskStatus.running;
  trigger_kind = TriggerKind.system;
  priority = 50;
  dedupe_key = none;
  manifest_id = some "m-1";
  workflow_id = none;
  trace_id = none;
  correlation_id = none;
  source = none;
  payload = ("fixtureId", Value.text "fx-1") ∷ [];
  attempts = record { started_at = 200; finished_at = none; error = none } ∷ [];
  scheduled_for = none;
  max_attempts = 3;
  last_error_message = none;
  lease_owner = some "in-memory-queue";
  lease_expires_at = some 300200;
  claimed_at = some 200;
  last_heartbeat_at = some 200;
  active_task_run_id = some "trn_task-a:n:t";
  created_at = 100;
  updated_at = 200;
}

abbrev claimed_run : TaskRun
claimed_run = record {
  id = "trn_task-a:n:t";
  task_id = "task-a";
  attempt_number = 1;
  status = RunStatus.running;
  worker_name = none;
  started_at = 200;
  finished_at = none;
  error = none;
  result = none;
  retry_scheduled_for = none;
  created_at = 200;
  updated_at = 200;
}

abbrev claimed : Claim
claimed = record { task = claimed_task; task_run = claimed_run }

test-claim : (claim platform "task-a" 200 waiting).0 ≡ ok (some claimed)
unfolding claim claimable get_by_id recycle_expired enqueue save start_claim start_task task_run_id
test-claim = refl

abbrev scored : Execution
scored = record { claim = claimed; result = output (("fixtureId", Value.text "fx-1") ∷ []) }

execution :
    execute_claim platform (in_memory platform) workers 300 claimed started
    ≡ (ok scored, (execute_claim platform (in_memory platform) workers 300 claimed started).1)
unfolding execute_claim work complete require_claim get_by_id claim claimable recycle_expired
    enqueue save start_claim start_task task_run_id complete_claim finish_task save_claim
execution = refl

claim-IsAnswered_example :
    IsAnswered "task-a" scored
      (execute_claim platform (in_memory platform) workers 300 claimed started).1
    × Records platform 300 claimed
        (work platform (in_memory platform) workers 300 claimed started)
        scored
unfolding work
claim-IsAnswered_example =
    claim-IsAnswered platform workers 300 claimed started
      (execute_claim platform (in_memory platform) workers 300 claimed started).1 scored
      (Reach-IsConsistent platform started-Reach).leased execution

-- A call of a worker leaves the queue alone, whatever the task.
module _ (s : Store) where
  research_work_keeps :
      (o : Option String) → (research_work platform (in_memory platform) workers 300 o s).1 ≡ s
  research_work_keeps none = refl
  research_work_keeps (some id) = refl

  prediction_work_keeps :
      (o : Option String) (id : String)
      → (prediction_work platform (in_memory platform) workers 300 o id s).1 ≡ s
  prediction_work_keeps none id = refl
  prediction_work_keeps (some fixture) id = refl

  replay_work_keeps :
      (a b c : Option String)
      → (replay_work platform (in_memory platform) workers 300 a b c s).1 ≡ s
  replay_work_keeps none b c = refl
  replay_work_keeps (some x) none c = refl
  replay_work_keeps (some x) (some y) none = refl
  replay_work_keeps (some x) (some y) (some z) = refl

  work_keeps : (c : Claim) → (work platform (in_memory platform) workers 300 c s).1 ≡ s
  unfolding work
  work_keeps c = kinds c.task.kind refl
    where
      kinds :
          (kind : TaskKind)
          → c.task.kind ≡ kind
          → (work platform (in_memory platform) workers 300 c s).1 ≡ s
      kinds TaskKind.fixture_ingestion e = rw e refl
      kinds TaskKind.odds_ingestion e = rw e refl
      kinds TaskKind.research e = rw e (research_work_keeps (payload_fixture_id c.task))
      kinds TaskKind.prediction e =
          rw e (prediction_work_keeps (payload_fixture_id c.task) c.task.id)
      kinds TaskKind.validation e = rw e refl
      kinds TaskKind.sandbox_replay e = rw e (
          replay_work_keeps (payload_text "profileName" c.task) (payload_text "packId" c.task)
            (payload_text "gitSha" c.task))

-- The queued task, and a task that another cycle holds.
abbrev held_order : EnqueueInput
held_order = record {
  id = some "task-b";
  kind = TaskKind.research;
  payload = ("fixtureId", Value.text "fx-2") ∷ [];
  priority = none;
  manifest_id = some "m-1";
  workflow_id = none;
  trace_id = none;
  correlation_id = none;
  source = none;
  scheduled_for = none;
  max_attempts = none;
}

abbrev busy : Store
busy = (claim platform "task-b" 250 (enqueue platform held_order 240 waiting).1).1

held_order-IsNewId : IsNewId platform held_order 240 waiting
unfolding get_by_id enqueue save
held_order-IsNewId old e = cc

busy-Reach : Reach platform busy
busy-Reach = claims "task-b" 250 (enqueues held_order 240 held_order-IsNewId waiting-Reach)

abbrev nothing : Dispatch
nothing = record { executions = []; parlay = not_published; successful_prediction_task_ids = [] }

abbrev dispatch_of : Result Dispatch → Dispatch
dispatch_of r = elim r [ ok d ↦ d | err e ↦ nothing ]

abbrev dispatching : Result Dispatch × Store
dispatching = run_manifest platform (in_memory platform) workers 300 1 "m-1" busy

dispatching-ok : dispatching ≡ (ok (dispatch_of dispatching.0), dispatching.1)
unfolding run_manifest execute_claim work complete require_claim get_by_id claim claimable
    recycle_expired enqueue save start_claim start_task task_run_id complete_claim finish_task
    save_claim
dispatching-ok = refl

held_runs : IsRunning "task-b" dispatching.1
unfolding run_manifest execute_claim work complete require_claim get_by_id claim claimable
    recycle_expired enqueue save start_claim start_task task_run_id complete_claim finish_task
    save_claim
held_runs = (_, refl, refl)

run_manifest-leaves_none_example : IsRunning "task-b" busy
run_manifest-leaves_none_example =
    run_manifest-leaves_none platform workers 300 1
      (λ c B s v. subst (RunsWithin B) (sym (work_keeps s c)) v) (λ ids B s v. v) "m-1" busy
      dispatching.1 (dispatch_of dispatching.0) (Reach-IsConsistent platform busy-Reach).distinct
      (Reach-IsConsistent platform busy-Reach).leased dispatching-ok "task-b" held_runs

run_manifest-returns_example :
    (d : Dispatch) × (after : Store) × (run_manifest platform
        (in_memory platform)
        workers
        300
        5
        "m-1"
        busy
      ≡ (ok d, after))
    × (length d.executions ≤ 5)
    × ((k : String) → IsRunning k after → IsRunning k busy)
run_manifest-returns_example =
    run_manifest-returns platform workers 300 5
      (λ c B s v. subst (RunsWithin B) (sym (work_keeps s c)) v)
      (λ c k j s d l h. (d, subst (λ s'. IsHeld k j 300 s' d) (sym (work_keeps s c)) h))
      (λ ids B s v. v) "m-1" busy (Reach-IsConsistent platform busy-Reach).distinct
      (Reach-IsConsistent platform busy-Reach).leased
