-- ===== src/Queue/Running.antt =====
-- Which tasks may run (packages/queue-adapters/src/index.ts): a claim starts the task that it names
-- and no other, and the operations that stop or add a task start none.
use mathlib.Core.Path.{subst}
use mathlib.Core.Bool.{false≢true}
use gana_v.Prelude.{
  String, ◌≡◌, ◌⊎◌, refl, sym, ◌∙◌, inl, inr, true, false, ap, Option, none, some, List, All,
  All-map, All-map_with, arith,
}
use gana_v.Storage.{get_by_id}
use gana_v.Storage.Laws.{
  Distinct, Distinct-save, All-save, All-get_by_id, get_by_id-id, Distinct-IsListed, IsListed,
}
use gana_v.Queue.Task.{TaskStatus, Time, Task, TaskRun, Claim, same_status, task_key}
use gana_v.Queue.Lifecycle.{
  Result, ok, err, Result-cases, start_task, default_lease_owner, default_lease_ms,
}
use gana_v.Queue.Store.{Platform, Store}
use gana_v.Queue.Claims.{start_claim, start_if_some, claimable, claim, recycle_expired}
use gana_v.Queue.Owners.{IsLeased}
use gana_v.Queue.Leases.{start_task-IsLeased}
use gana_v.Queue.Invariant.Claiming.{run_id, start_claim-eq, truthy-task_run_id, claimable-id}
use gana_v.Queue.Idling.{IsIdle, with_task, recycle_expired-keeps}

abbrev pub Runs : Task → Type 0
Runs t = same_status t.status TaskStatus.running ≡ true

-- The tasks have distinct ids and lease fields exactly while they run, and only tasks with an id that
-- `B` allows run.
pub record RunsWithin (B : String → Type 0) (s : Store) : Type 0 where
  pub distinct : Distinct task_key s.tasks
  pub leased : All IsLeased s.tasks
  pub within : All (λ t. Runs t → B t.id) s.tasks

save_within :
    (B : String → Type 0) (s : Store) (u : Task) (task_runs : List TaskRun)
    → RunsWithin B s
    → IsLeased u
    → (Runs u → B u.id)
    → RunsWithin B (with_task s u task_runs)
save_within B s u task_runs v leased allowed = record {
  distinct = Distinct-save task_key u s.tasks v.distinct;
  leased = All-save task_key IsLeased u s.tasks leased v.leased;
  within = All-save task_key (λ t. Runs t → B t.id) u s.tasks allowed v.within;
}

-- What the operations that stop or add a task need.
pub save_idle_within :
    (B : String → Type 0) (s : Store) (u : Task) (task_runs : List TaskRun)
    → RunsWithin B s
    → IsIdle u
    → RunsWithin B (with_task s u task_runs)
save_idle_within B s u task_runs v (leased, idle) =
    save_within B s u task_runs v leased λ r. absurd (false≢true (sym idle ∙ r))

pub RunsWithin-weaken :
    (B C : String → Type 0) (s : Store)
    → ((k : String) → B k → C k)
    → RunsWithin B s
    → RunsWithin C s
RunsWithin-weaken B C s f v = record {
  distinct = v.distinct;
  leased = v.leased;
  within =
      All-map (λ t. Runs t → B t.id) (λ t. Runs t → C t.id) (λ t g r. f t.id (g r)) s.tasks
        v.within;
}

-- A task that is known not to run need not be allowed.
pub RunsWithin-drop :
    (B : String → Type 0) (k : String) (s : Store) (u : Task)
    → RunsWithin (λ j. B j ⊎ (j ≡ k)) s
    → get_by_id task_key k s.tasks ≡ some u
    → same_status u.status TaskStatus.running ≡ false
    → RunsWithin B s
RunsWithin-drop B k s u v found idle = record {
  distinct = v.distinct;
  leased = v.leased;
  within =
      All-map_with (λ t. Runs t → B t.id ⊎ (t.id ≡ k)) (λ t. Runs t → B t.id)
        (λ t listed h r. not_that t listed (h r) r) s.tasks
        (Distinct-IsListed task_key s.tasks v.distinct) v.within;
}
  where
    not_that : (t : Task) → IsListed task_key s.tasks t → B t.id ⊎ (t.id ≡ k) → Runs t → B t.id
    not_that t listed (inl b) r = b
    not_that t listed (inr same) r =
        let t_is_u : t ≡ u = ground (arith, same, listed, found) in
        absurd (
          false≢true
            (sym idle ∙ ap (λ x. same_status x.status TaskStatus.running) (sym t_is_u) ∙ r))

-- The task `k` runs.
abbrev pub IsRunning : String → Store → Type 0
IsRunning k s = (t : Task) × (get_by_id task_key k s.tasks ≡ some t) × Runs t

-- Where only ids that `B` allows run, a running task has such an id.
pub IsRunning-allowed :
    (B : String → Type 0) (s : Store) (k : String) → RunsWithin B s → IsRunning k s → B k
IsRunning-allowed B s k v (t, found, r) =
    subst B (get_by_id-id task_key k s.tasks t found)
      (All-get_by_id task_key (λ t. Runs t → B t.id) k s.tasks t v.within found r)

-- At first, the running tasks are the ones that run.
pub runs_now :
    (s : Store)
    → Distinct task_key s.tasks
    → All IsLeased s.tasks
    → RunsWithin (λ k. IsRunning k s) s
runs_now s d l = record {
  distinct = d;
  leased = l;
  within =
      All-map (IsListed task_key s.tasks) (λ t. Runs t → IsRunning t.id s) (λ t h r. (t, h, r))
        s.tasks (Distinct-IsListed task_key s.tasks d);
}

-- After a claim of `k`: the tasks that ran before, and `k` where the claim is one.
abbrev pub ClaimsWithin : (String → Type 0) → String → Result (Option Claim) × Store → Type 0
ClaimsWithin B k (ok (some c), s) = (c.task.id ≡ k) × RunsWithin (λ j. B j ⊎ (j ≡ k)) s
ClaimsWithin B k (ok none, s) = RunsWithin B s
ClaimsWithin B k (err e, s) = RunsWithin B s

module _ (p : Platform) (B : String → Type 0) (k : String) (now : Time) (s : Store)
    (v : RunsWithin B s) where
  start_claim-ClaimsWithin : (t : Task) → t.id ≡ k → ClaimsWithin B k (start_claim p t now s)
  start_claim-ClaimsWithin t named =
      elim (Result-cases
        (start_task t now default_lease_owner default_lease_ms (some (run_id p t now s)))) [
          | inl (e, f) ↦ unfold start_claim in rw f v
          | inr (u, f) ↦
              let (leased, same, running, active) =
                start_task-IsLeased t u now default_lease_owner default_lease_ms (run_id p t now s)
                  refl (truthy-task_run_id p t _ now) f in
              rw (start_claim-eq p t now s u f) (
                same ∙ named,
                save_within (λ j. B j ⊎ (j ≡ k)) s u _
                    (RunsWithin-weaken B (λ j. B j ⊎ (j ≡ k)) s (λ j b. inl b) v) leased
                    (λ r. inr (same ∙ named)),
              )
        ]

  start_if_some-ClaimsWithin :
      (o : Option Task)
      → ((t : Task) → o ≡ some t → t.id ≡ k)
      → ClaimsWithin B k (start_if_some p o now s)
  unfolding start_if_some
  start_if_some-ClaimsWithin none named = v
  start_if_some-ClaimsWithin (some t) named = start_claim-ClaimsWithin t (named t refl)

pub claim-ClaimsWithin :
    (p : Platform) (B : String → Type 0) (k : String) (now : Time) (s : Store)
    → RunsWithin B s
    → ClaimsWithin B k (claim p k now s)
unfolding claim
claim-ClaimsWithin p B k now s v =
    let s' = recycle_expired now s in
    start_if_some-ClaimsWithin p B k now s'
      (recycle_expired-keeps (RunsWithin B) (save_idle_within B) now s v)
      (claimable (get_by_id task_key k s'.tasks) now) (λ t e. claimable-id k now s' t e)
