-- ===== src/Queue/Exclusion.antt =====
-- What the claims return, and that a claimed task is not claimed again while its lease lasts
-- (packages/queue-adapters/src/index.ts).
use mathlib.Core.Path.{subst}
use gana_v.Prelude.{
  ◌+◌, ◌<◌, String, ◌≡◌, ◌∙◌, inl, inr, true, false, none, some, List, [], ◌∷◌, ◌++◌, arith,
  Option-cases, length,
}
use gana_v.Prelude.Texts.{str_eq_refl}
use gana_v.Storage.{get_by_id, save}
use gana_v.Storage.Laws.{IsListed, get_by_id-save}
use gana_v.Queue.Task.{
  TaskStatus, RunStatus, Time, Task, TaskRun, Claim, same_status, task_key, run_key,
}
use gana_v.Queue.Lifecycle.{
  ok, Result-cases, start_task, has_expired_lease, default_lease_owner, default_lease_ms,
}
use gana_v.Queue.Store.{Platform, Store, find_by_status}
use gana_v.Queue.Claims.{
  task_run_id, new_run, start_claim, start_if_some, recycle_expired, claimable, claim,
}
use gana_v.Queue.Invariant.{IsConsistent, recycle_expired-keeps}
use gana_v.Queue.Invariant.Claiming.{
  truthy-task_run_id, start_claim-eq, claim-IsConsistent, claimable-IsListed, claimable-id,
}

-- A claim has started `t` as `u` at `now`: one more attempt, and a lease of five minutes.
pub record HasStarted (run_id : String) (now : Time) (t u : Task) : Type 0 where
  pub status : u.status ≡ TaskStatus.running
  pub same_id : u.id ≡ t.id
  pub attempts :
      u.attempts ≡ t.attempts ++ record { started_at = now; finished_at = none; error = none } ∷ []
  pub lease : u.lease_expires_at ≡ some (now + 300000)
  pub owner : u.lease_owner ≡ some "in-memory-queue"
  pub active : u.active_task_run_id ≡ some run_id

-- The id of the run that a claim of `t` at `now` creates.
abbrev pub claim_id : Platform → Time → Task → String
claim_id p now t = task_run_id p t (length t.attempts + 1) now

module _ (p : Platform) (now : Time) (s : Store) (t : Task)
    (q : same_status t.status TaskStatus.queued ≡ true) where
  -- Starting a queued task returns it with a new run, and saves both.
  pub starts :
      (u : Task) × (start_claim p t now s ≡ (
        ok (some (record { task = u; task_run = new_run (claim_id p now t) t now })),
        record {
          tasks = save task_key u s.tasks;
          task_runs = save run_key (new_run (claim_id p now t) t now) s.task_runs;
        },
      ))
      × HasStarted (claim_id p now t) now t u
  starts =
      elim (Result-cases
        (start_task t now default_lease_owner default_lease_ms (some (claim_id p now t)))) [
          | inl (e, f) ↦ absurd (unfold start_task in ground arith)
          | inr (u, f) ↦ (u, start_claim-eq p t now s u f, started u f)
        ]
    where
      started :
          (u : Task)
          → start_task t now default_lease_owner default_lease_ms (some (claim_id p now t)) ≡ ok u
          → HasStarted (claim_id p now t) now t u
      started u f =
          let g = truthy-task_run_id p t (length t.attempts + 1) now in
          unfold start_task in ground (arith, g)

-- The tasks that a claim at `now` chooses from: the queued ones, once expired leases are recycled.
abbrev pub waiting_tasks : Time → Store → List Task
waiting_tasks now s = find_by_status TaskStatus.queued (recycle_expired now s).tasks

-- The new run of a task that starts at `now`.
pub record IsNewRun (run_id : String) (now : Time) (t : Task) (run : TaskRun) : Type 0 where
  pub id : run.id ≡ run_id
  pub task : run.task_id ≡ t.id
  pub status : run.status ≡ RunStatus.running
  pub attempt : run.attempt_number ≡ length t.attempts + 1
  pub started : run.started_at ≡ now

-- A running task whose lease lasts is refused.
claim_refused :
    (p : Platform) (u : Task) (later : Time) (s : Store)
    → IsConsistent s
    → IsListed task_key s.tasks u
    → u.status ≡ TaskStatus.running
    → has_expired_lease u later ≡ false
    → (claim p u.id later s).0 ≡ ok none
unfolding claim start_if_some claimable
claim_refused p u later s v listed runs live =
    ground (arith, runs, recycle_expired-keeps later s u v listed live)

claimed :
    (p : Platform) (task_id : String) (now : Time) (s : Store) (t : Task)
    → claimable (get_by_id task_key task_id (recycle_expired now s).tasks) now ≡ some t
    → IsConsistent s
    → (t.id ≡ task_id)
      × (u : Task) × HasStarted (claim_id p now t) now t u
      × IsListed task_key (claim p task_id now s).1.tasks u
unfolding claim start_if_some
claimed p task_id now s t e v =
    let (listed, queued) = claimable-IsListed task_id now (recycle_expired now s) t e in
    let (u, f, started) = starts p now (recycle_expired now s) t queued in
    (
      claimable-id task_id now (recycle_expired now s) t e,
      u,
      started,
      ground (
        arith,
        e,
        f,
        str_eq_refl u.id,
        get_by_id-save task_key u u.id (recycle_expired now s).tasks,
      ),
    )

-- A task that `claim` has started is refused to every `claim` before its lease of five minutes is
-- over, in a consistent store.
pub claim_exclusive :
    (p : Platform) (task_id : String) (now later : Time) (s : Store) (c : Claim)
    → IsConsistent s
    → (claim p task_id now s).0 ≡ ok (some c)
    → later < now + 300000
    → (claim p task_id later (claim p task_id now s).1).0 ≡ ok none
claim_exclusive p task_id now later s c v e early =
    elim (Option-cases (claimable (get_by_id task_key task_id (recycle_expired now s).tasks) now)) [
      | inl n ↦ absurd (unfold claim start_if_some in ground (arith, n))
      | inr (t, f) ↦
          let (same, u, started, listed) = claimed p task_id now s t f v in
          let live : has_expired_lease u later ≡ false =
            unfold has_expired_lease in ground (arith, started.lease, started.status) in
          let id : u.id ≡ task_id = started.same_id ∙ same in
          subst (λ k. (claim p k later (claim p task_id now s).1).0 ≡ ok none) id
            (claim_refused p u later (claim p task_id now s).1
              (claim-IsConsistent p task_id now s v) listed started.status live)
    ]
