-- ===== src/Queue/Held.antt =====
-- When a worker's operation on its claim gets past the checks (packages/queue-adapters/src/index.ts),
-- and that each operation does nothing otherwise.
use gana_v.Prelude.{
  ◌<◌, String, ◌≡◌, ◌⊎◌, inl, inr, true, Option, none, some, arith, Option-cases, is_some,
}
use gana_v.Prelude.Texts.{str_eq_iff, str_eq_refl, truthy}
use gana_v.Storage.{get_by_id}
use gana_v.Queue.Task.{TaskStatus, RunStatus, Time, Task, TaskRun, Claim, task_key, run_key}
use gana_v.Queue.Lifecycle.{
  QueueError, task_not_found, run_not_found, ok, err, Result-cases, ensure_task_lifecycle_match,
}
use gana_v.Queue.Store.{Store}
use gana_v.Queue.Adapter.{require_claim}

-- The task runs under the run, as the task's record says, and its lease is not over.
pub record Holds (task : Task) (run : TaskRun) (task_id : String) (now : Time) : Type 0 where
  pub own : run.task_id ≡ task_id
  pub task_runs : task.status ≡ TaskStatus.running
  pub run_runs : run.status ≡ RunStatus.running
  pub active : task.active_task_run_id ≡ some run.id
  pub owner : is_some (truthy task.lease_owner) ≡ true
  pub lease : (expiry : Time) × (task.lease_expires_at ≡ some expiry) × (now < expiry)

-- `ensureTaskLifecycleMatch` passes exactly those.
pub ensure_task_lifecycle_match-Holds :
    (task : Task) (run : TaskRun) (task_id : String) (now : Time)
    → ensure_task_lifecycle_match task run task_id now ≡ ok tt
    → Holds task run task_id now
unfolding ensure_task_lifecycle_match
ensure_task_lifecycle_match-Holds task run task_id now h =
    elim (Option-cases task.lease_expires_at) [
      | inl n ↦ absurd (ground (arith, n))
      | inr (expiry, e) ↦ record {
        own = ground (arith, str_eq_iff run.task_id task_id);
        task_runs = ground arith;
        run_runs = ground arith;
        active = active (task.active_task_run_id) (ground arith);
        owner = ground arith;
        lease = (expiry, e, ground (arith, e));
      }
    ]
  where
    active :
        (o : Option String) → o ≡ task.active_task_run_id → task.active_task_run_id ≡ some run.id
    active none e = ground (arith, e)
    active (some k) e = ground (arith, e, str_eq_iff k run.id)

pub Holds-ensure_task_lifecycle_match :
    (task : Task) (run : TaskRun) (task_id : String) (now : Time)
    → Holds task run task_id now
    → ensure_task_lifecycle_match task run task_id now ≡ ok tt
unfolding ensure_task_lifecycle_match
Holds-ensure_task_lifecycle_match task run task_id now h =
    ground (arith, str_eq_iff run.task_id task_id, str_eq_refl run.id)

-- The two entities of a claim are in the store, under the ids that were asked for.
pub record IsHeld (task_id run_id : String) (now : Time) (s : Store) (c : Claim) : Type 0 where
  pub task_found : get_by_id task_key task_id s.tasks ≡ some c.task
  pub run_found : get_by_id run_key run_id s.task_runs ≡ some c.task_run
  pub holds : Holds c.task c.task_run task_id now

abbrev pub RequireResult : String → String → Time → Store → Type 0
RequireResult task_id run_id now s =
    ((e : QueueError) × (require_claim task_id run_id now s ≡ (err e, s)))
    ⊎ ((c : Claim) × (require_claim task_id run_id now s ≡ (ok c, s))
        × IsHeld task_id run_id now s c)

-- The beginning of each operation: an error that leaves the store alone, or a claim that is held.
pub require_claim-cases :
    (task_id run_id : String) (now : Time) (s : Store) → RequireResult task_id run_id now s
unfolding require_claim
require_claim-cases task_id run_id now s =
    elim (Option-cases (get_by_id task_key task_id s.tasks)) [
      | inl n ↦ inl (task_not_found task_id, ground (arith, n))
      | inr (task, e) ↦ elim (Option-cases (get_by_id run_key run_id s.task_runs)) [
        | inl n ↦ inl (run_not_found run_id, ground (arith, e, n))
        | inr (run, f) ↦ elim (Result-cases (ensure_task_lifecycle_match task run task_id now)) [
          | inl (x, g) ↦ inl (x, ground (arith, e, f, g))
          | inr (unit, g) ↦ inr (
            record { task = task; task_run = run },
            ground (arith, e, f, g),
            record {
              task_found = e;
              run_found = f;
              holds = ensure_task_lifecycle_match-Holds task run task_id now g;
            },
          )
        ]
      ]
    ]
