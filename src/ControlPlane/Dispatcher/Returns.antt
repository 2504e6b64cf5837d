-- ===== src/ControlPlane/Dispatcher/Returns.antt =====
-- That the work of a dispatcher cycle returns (packages/control-plane-runtime/src/dispatcher.ts),
-- over the in-memory queue and with workers that keep their claims.
use mathlib.Core.Path.{subst}
use gana_v.Prelude.{ℕ, ◌≤◌, String, ◌≡◌, inl, inr, List, length, All, sym, ap}
use gana_v.Storage.Laws.{Distinct}
use gana_v.Queue.Task.{Payload, Time, Claim, task_key}
use gana_v.Queue.Lifecycle.{Result, ok}
use gana_v.Queue.Store.{Platform, Store}
use gana_v.Queue.Owners.{IsLeased}
use gana_v.Queue.Held.{IsHeld}
use gana_v.Queue.Outcomes.{complete-finishes, fail-outcome}
use gana_v.Queue.Running.{RunsWithin, IsRunning, IsRunning-allowed, runs_now}
use gana_v.ControlPlane.Adapter.{in_memory}
use gana_v.ControlPlane.Dispatcher.Work.{Work, output, thrown, Workers, work}
use gana_v.ControlPlane.Dispatcher.Claims.{
  after_failed, fail_execution, after_completed, after_work, execute_claim,
}
use gana_v.ControlPlane.Dispatcher.Manifest.{Dispatch, run_manifest}
use gana_v.ControlPlane.Dispatcher.Returned.{Ending, Ending-returns}
use gana_v.ControlPlane.Dispatcher.Bounds.{run_manifest_bounded}
use gana_v.ControlPlane.Dispatcher.Leaves.{KeepsRunning, run_manifest-RunsWithin}

-- A call keeps each claim: after it a claim is held under the same ids, as it was or with a lease
-- that has been renewed.
abbrev pub KeepsClaims : {A : Type 0} → Time → (Store → A × Store) → Type 0
KeepsClaims now f =
    (task_id run_id : String) (s : Store) (c : Claim)
    → All IsLeased s.tasks
    → IsHeld task_id run_id now s c
    → (d : Claim) × IsHeld task_id run_id now (f s).1 d

module _ (p : Platform) (w : Workers (in_memory p)) (now : Time) (c : Claim) where
  -- While its claim is held, a worker's end is accepted.
  fail_execution-Ending :
      (message : String) (s : Store)
      → All IsLeased s.tasks
      → (d : Claim) → IsHeld c.task.id c.task_run.id now s d
      → Ending ⊥ (λ _ _. Unit) (fail_execution p (in_memory p) w now c message s)
  fail_execution-Ending message s leased d h =
      let read : Result Claim × Store → Type 0 =
        λ r. Ending ⊥ (λ _ _. Unit) (after_failed p (in_memory p) w now c message r) in
      elim (fail-outcome c.task.id c.task_run.id now s leased d h message) [
        | inl (l, (plan, q, f, t1, t2, t3, t4, t5)) ↦ subst read (sym q) tt
        | inr (l, (u, q, f, r)) ↦ subst read (sym q) tt
      ]

  after_work-Ending :
      (r : Work Payload × Store)
      → All IsLeased r.1.tasks
      → (d : Claim) → IsHeld c.task.id c.task_run.id now r.1 d
      → Ending ⊥ (λ _ _. Unit) (after_work p (in_memory p) w now c r)
  after_work-Ending (output done, s) leased d h =
      let (u, q, f, r) = complete-finishes c.task.id c.task_run.id now s leased d h in
      subst (λ r. Ending ⊥ (λ _ _. Unit) (after_completed p (in_memory p) w now c done r)) (sym q)
        tt
  after_work-Ending (thrown message, s) leased d h = fail_execution-Ending message s leased d h

-- Over the in-memory queue and a store with distinct task ids and lease fields exactly on the running
-- tasks. The workers and the publisher are assumed to leave every such store as such a store, and to
-- leave no task running that did not run before their call; the workers are also assumed to keep each
-- claim held. Then the work of a dispatcher cycle on a manifest returns, whatever the workers return
-- or throw; it has executed at most as many claims as are allowed; and every task that runs in the
-- store it leaves ran before the cycle.
pub run_manifest-returns :
    (p : Platform) (w : Workers (in_memory p)) (now : Time) (limit : ℕ)
    → ((c : Claim) → KeepsRunning (work p (in_memory p) w now c))
    → ((c : Claim) → KeepsClaims now (work p (in_memory p) w now c))
    → ((ids : List String) → KeepsRunning (w.publish ids now))
    → (manifest_id : String) (s : Store) → Distinct task_key s.tasks
    → All IsLeased s.tasks
    → (d : Dispatch) × (after : Store) × (run_manifest p (in_memory p) w now limit manifest_id s
        ≡ (ok d, after))
      × (length d.executions ≤ limit)
      × ((k : String) → IsRunning k after → IsRunning k s)
unfolding execute_claim
run_manifest-returns p w now limit works claims publishes manifest_id s distinct leased =
    let B : String → Type 0 = λ j. IsRunning j s in
    let (d, after, e, within) =
      Ending-returns (λ _. RunsWithin B) (run_manifest p (in_memory p) w now limit manifest_id s)
        (run_manifest-RunsWithin p w now works ⊥
          (λ c s unique l h.
            let (d, held) = claims c c.task.id c.task_run.id s c l h in
            after_work-Ending p w now c (work p (in_memory p) w now c s)
              (works c (λ j. IsRunning j s) s (runs_now s unique l)).leased d held)
          B publishes limit manifest_id s (runs_now s distinct leased)) in
    (
      d,
      after,
      e,
      run_manifest_bounded p (in_memory p) w now limit manifest_id s d (ap (λ r. r.0) e),
      λ k r. IsRunning-allowed B after k within r,
    )
