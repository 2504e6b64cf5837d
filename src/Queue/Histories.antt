-- ===== src/Queue/Histories.antt =====
-- Every sequence of operations on a new queue (packages/queue-adapters/src/index.ts), whether they
-- return or throw, as a relation.
use gana_v.Prelude.{ℕ, String, ◌≡◌, ◌≢◌, Option, some, [], arith}
use gana_v.Storage.{get_by_id}
use gana_v.Queue.Task.{TaskStatus, TaskKind, RunStatus, Time, Task, TaskRun, task_key, run_key}
use gana_v.Queue.Store.{Platform, Store}
use gana_v.Queue.Enqueue.{EnqueueInput, enqueue_id, enqueue}
use gana_v.Queue.Claims.{claim_next, claim}
use gana_v.Queue.Adapter.{renew_lease, complete, fail, quarantine, requeue}
use gana_v.Queue.Invariant.{IsConsistent}
use gana_v.Queue.Invariant.Claiming.{
  claim_next-IsConsistent, claim-IsConsistent, enqueue-IsConsistent,
}
use gana_v.Queue.Invariant.Finishing.{
  renew_lease-IsConsistent, complete-IsConsistent, fail-IsConsistent, quarantine-IsConsistent,
  requeue-IsConsistent,
}

abbrev pub empty_store : Store
empty_store = record { tasks = []; task_runs = [] }

-- The id of a new task is not that of a running task.
abbrev pub IsNewId : Platform → EnqueueInput → Time → Store → Type 0
IsNewId p input now s =
    (old : Task)
    → get_by_id task_key (enqueue_id p input now) s.tasks ≡ some old
    → old.status ≢ TaskStatus.running

-- The stores that operations reach from the empty one, each operation at a time of its own.
pub data Reach (p : Platform) : Store → Type 0 where
  start : Reach p empty_store
  enqueues :
      {s : Store} (input : EnqueueInput) (now : Time)
      → IsNewId p input now s
      → Reach p s
      → Reach p (enqueue p input now s).1
  claims_next :
      {s : Store} (kind : Option TaskKind) (now : Time)
      → Reach p s
      → Reach p (claim_next p kind now s).1
  claims :
      {s : Store} (task_id : String) (now : Time) → Reach p s → Reach p (claim p task_id now s).1
  renews :
      {s : Store} (task_id run_id : String) (now : Time) (ms : ℕ)
      → Reach p s
      → Reach p (renew_lease task_id run_id now ms s).1
  completes :
      {s : Store} (task_id run_id : String) (now : Time)
      → Reach p s
      → Reach p (complete task_id run_id now s).1
  fails :
      {s : Store} (task_id run_id error : String) (now : Time)
      → Reach p s
      → Reach p (fail task_id run_id error now s).1
  quarantines :
      {s : Store} (task_id run_id reason : String) (now : Time)
      → Reach p s
      → Reach p (quarantine task_id run_id reason now s).1
  requeues :
      {s : Store} (task_id : String) (now : Time) → Reach p s → Reach p (requeue task_id now s).1

-- Every store that operations reach is consistent: its task ids are distinct, each task has lease
-- fields and an active run exactly while it runs, and each run that runs is the active run of its
-- task, which runs. A task may be enqueued under an id that is not that of a running task.
pub Reach-IsConsistent : (p : Platform) {s : Store} → Reach p s → IsConsistent s
Reach-IsConsistent p start = record { distinct = tt; leased = tt; owned = λ k r e. no_run k r e }
  where
    no_run :
        (k : String) (r : TaskRun)
        → get_by_id run_key k [] ≡ some r
        → r.status ≡ RunStatus.running
        → (t : Task) × (get_by_id task_key r.task_id [] ≡ some t)
          × ((t.status ≡ TaskStatus.running) × (t.active_task_run_id ≡ some k))
    no_run k r e = absurd (unfold get_by_id in cc)
Reach-IsConsistent p (enqueues input now new r) =
    enqueue-IsConsistent p input now _ (Reach-IsConsistent p r) new
Reach-IsConsistent p (claims_next kind now r) =
    claim_next-IsConsistent p kind now _ (Reach-IsConsistent p r)
Reach-IsConsistent p (claims task_id now r) =
    claim-IsConsistent p task_id now _ (Reach-IsConsistent p r)
Reach-IsConsistent p (renews task_id run_id now ms r) =
    renew_lease-IsConsistent task_id run_id now _ (Reach-IsConsistent p r) ms
Reach-IsConsistent p (completes task_id run_id now r) =
    complete-IsConsistent task_id run_id now _ (Reach-IsConsistent p r)
Reach-IsConsistent p (fails task_id run_id error now r) =
    fail-IsConsistent task_id run_id now _ (Reach-IsConsistent p r) error
Reach-IsConsistent p (quarantines task_id run_id reason now r) =
    quarantine-IsConsistent task_id run_id now _ (Reach-IsConsistent p r) reason
Reach-IsConsistent p (requeues task_id now r) =
    requeue-IsConsistent task_id now _ (Reach-IsConsistent p r)

-- In every store that operations reach from the empty one, where no task is enqueued under the id of
-- a task that runs at that moment, two runs of one task that both run are the same run: no two
-- workers hold a task.
pub one_running_run :
    (p : Platform) {s : Store} (k j : String) (a b : TaskRun)
    → Reach p s
    → get_by_id run_key k s.task_runs ≡ some a
    → get_by_id run_key j s.task_runs ≡ some b
    → a.status ≡ RunStatus.running
    → b.status ≡ RunStatus.running
    → a.task_id ≡ b.task_id
    → k ≡ j
one_running_run p {s} k j a b r found_a found_b runs_a runs_b same =
    let v = Reach-IsConsistent p r in
    let (t, listed_t, under_t) = v.owned k a found_a runs_a in
    let (u, listed_u, under_u) = v.owned j b found_b runs_b in
    ground (arith, same, listed_t, listed_u, under_t.1, under_u.1)
