-- ===== src/ControlPlane/Recovery/Keeps.antt =====
-- What every operation of the queue keeps, a recovery keeps
-- (packages/control-plane-runtime/src/recovery.ts).
use gana_v.Prelude.{ℕ, String, Option, none, some, List, [], ◌∷◌, inl, inr, leb, length, Bool-cases}
use gana_v.Queue.Task.{Time, Task, Claim}
use gana_v.Queue.Lifecycle.{Result, ok, err}
use gana_v.Queue.Store.{Platform}
use gana_v.Queue.Histories.{
  Reach, claims as claim_step, renews as renew_step, fails as fail_step,
  quarantines as quarantine_step, requeues as requeue_step,
}
use gana_v.ControlPlane.Adapter.{TaskQueue, in_memory}
use gana_v.ControlPlane.Recovery.{
  Progress, no_progress, RecoveryOptions, lease_candidates, terminal_tasks, recover_lease,
  renew_progress, review_reason, redrive_error, after_quarantine, after_fail, after_renew,
  after_claim, recover_leases, after_requeue, requeue_tasks, recover,
}
use gana_v.ControlPlane.Recovery.Report.{Plane, run_recovery_cycle}

module _ (p : Platform) (q : TaskQueue) (now : Time) (ms : ℕ) (I : q.State → Type 0)
    (renews : (k j : String) (s : q.State) → I s → I (q.renew_lease k j now ms s).1)
    (fails : (k j e : String) (s : q.State) → I s → I (q.fail k j e now s).1)
    (quarantines : (k j e : String) (s : q.State) → I s → I (q.quarantine k j e now s).1)
    (requeues : (k : String) (s : q.State) → I s → I (q.requeue k now s).1) where
  after_quarantine-keeps :
      (id reason : String) (g : Progress) (r : Result Claim × q.State)
      → I r.1
      → I (after_quarantine p q now ms id reason g r).1
  after_quarantine-keeps id reason g (ok c, s) h = h
  after_quarantine-keeps id reason g (err e, s) h = h

  after_fail-keeps :
      (id : String) (g : Progress) (r : Result Claim × q.State)
      → I r.1
      → I (after_fail p q now ms id g r).1
  after_fail-keeps id g (ok c, s) h = h
  after_fail-keeps id g (err e, s) h = h

  after_renew-keeps :
      (id : String) (g : Progress) (r : Result Claim × q.State)
      → I r.1
      → I (after_renew p q now ms id g r).1
  after_renew-keeps id g (err e, s) h = h
  after_renew-keeps id g (ok c, s) h =
      elim (Bool-cases (leb c.task.max_attempts (length c.task.attempts))) [
        | inl b ↦ rw b (
            after_quarantine-keeps id (review_reason p q now ms c.task) (renew_progress c.task.id g)
              (q.quarantine c.task.id c.task_run.id (review_reason p q now ms c.task) now s)
              (quarantines c.task.id c.task_run.id (review_reason p q now ms c.task) s h))
        | inr b ↦ rw b (
            after_fail-keeps id (renew_progress c.task.id g)
              (q.fail c.task.id c.task_run.id redrive_error now s)
              (fails c.task.id c.task_run.id redrive_error s h))
      ]

  -- Once a claim has brought it about, the rest of the round keeps it.
  pub after_claim-keeps :
      (id : String) (g : Progress) (r : Result (Option Claim) × q.State)
      → I r.1
      → I (after_claim p q now ms id g r).1
  after_claim-keeps id g (err e, s) h = h
  after_claim-keeps id g (ok none, s) h = h
  after_claim-keeps id g (ok (some c), s) h =
      after_renew-keeps id (recover_lease c.task.id g)
        (q.renew_lease c.task.id c.task_run.id now ms s) (renews c.task.id c.task_run.id s h)

  after_requeue-keeps :
      (t : Task) (g : Progress) (r : Result Task × q.State)
      → I r.1
      → I (after_requeue p q now ms t g r).1
  after_requeue-keeps t g (ok u, s) h = h
  after_requeue-keeps t g (err e, s) h = h

  pub requeue_tasks-keeps :
      (ts : List Task) (g : Progress) (s : q.State) → I s → I (requeue_tasks p q now ms ts g s).1
  unfolding requeue_tasks
  requeue_tasks-keeps [] g s h = h
  requeue_tasks-keeps (t ∷ ts) g s h =
      requeue_tasks-keeps ts (after_requeue p q now ms t g (q.requeue t.id now s)).0
        (after_requeue p q now ms t g (q.requeue t.id now s)).1
        (after_requeue-keeps t g (q.requeue t.id now s) (requeues t.id s h))

  module _ (claims : (k : String) (s : q.State) → I s → I (q.claim k now s).1) where
    pub recover_leases-keeps :
        (ts : List Task) (g : Progress) (s : q.State) → I s → I (recover_leases p q now ms ts g s).1
    unfolding recover_leases
    recover_leases-keeps [] g s h = h
    recover_leases-keeps (t ∷ ts) g s h =
        recover_leases-keeps ts (after_claim p q now ms t.id g (q.claim t.id now s)).0
          (after_claim p q now ms t.id g (q.claim t.id now s)).1
          (after_claim-keeps t.id g (q.claim t.id now s) (claims t.id s h))

    pub recover-keeps :
        (lease_limit redrive_limit : ℕ) (s : q.State)
        → I s
        → I (recover p q now ms lease_limit redrive_limit s).1
    unfolding recover
    recover-keeps lease_limit redrive_limit s h =
        let candidates = lease_candidates now lease_limit (q.list s) in
        let g = (recover_leases p q now ms candidates no_progress s).0 in
        let s' = (recover_leases p q now ms candidates no_progress s).1 in
        requeue_tasks-keeps (terminal_tasks redrive_limit g (q.list s')) g s'
          (recover_leases-keeps candidates no_progress s h)

-- A recovery cycle over the in-memory queue takes a store that the queue's operations reach to one
-- that they reach.
pub recovery-Reach :
    (p : Platform) (now clock : Time) (id lease_owner : String) (options : RecoveryOptions)
    (s : Plane (in_memory p))
    → Reach p s.queue
    → Reach p (run_recovery_cycle p (in_memory p) now id lease_owner clock options s).1.queue
unfolding run_recovery_cycle
recovery-Reach p now clock id lease_owner options s r =
    recover-keeps p (in_memory p) now _ (Reach p) (λ k j s h. renew_step k j now _ h)
      (λ k j e s h. fail_step k j e now h) (λ k j e s h. quarantine_step k j e now h)
      (λ k s h. requeue_step k now h) (λ k s h. claim_step k now h) _ _ s.queue r
