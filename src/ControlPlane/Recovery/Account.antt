-- ===== src/ControlPlane/Recovery/Account.antt =====
-- The actions that a recovery records (packages/control-plane-runtime/src/recovery.ts), over any
-- queue.
use gana_v.Prelude.{
  ℕ, zero, suc, ◌+◌, ◌≤◌, ltb, leb, ◌≡◌, refl, String, Bool, true, false, Option, none, some, List,
  [], ◌∷◌, ◌++◌, arith, inl, inr, Bool-cases, if◌then◌else◌, length, length-append, any, any-append,
  take,
}
use mathlib.Core.Path.{subst}
use gana_v.Queue.Task.{TaskStatus, Time, Task, Claim, same_status}
use gana_v.Queue.Lifecycle.{Result, ok, err}
use gana_v.Queue.Store.{Platform}
use gana_v.ControlPlane.Adapter.{TaskQueue}
use gana_v.ControlPlane.Cycle.{succeeded, failed, create_automation_cycle, update_cycle}
use gana_v.ControlPlane.Recovery.{
  RecoveryAction, error_expired_lease, error_requeue_terminal_task, Progress, no_progress,
  RecoveryOptions, redrive_limit_of, lease_recovery_limit_of, renew_lease_ms_of, lease_candidates,
  terminal_tasks, redrive_error, recover_lease, renew_progress, review_reason, after_quarantine,
  failed_claim, after_fail, after_renew, after_claim, recover_leases, after_requeue, requeue_tasks,
  recover,
}
use gana_v.ControlPlane.Recovery.Report.{
  Plane, RecoveryMetadata, recovery_metadata, finished_record, run_recovery_cycle,
}

abbrev pub is_error : RecoveryAction → Bool
is_error (error_expired_lease _ _) = true
is_error (error_requeue_terminal_task _ _) = true
is_error _ = false

-- So many actions, and an error for each action that is one.
pub record Accounts (n : ℕ) (g : Progress) : Type 0 where
  pub count : length g.actions ≡ n
  pub errors : ltb 0 (length g.errors) ≡ any is_error g.actions

-- One more action that is no error, with the errors as they were.
push_action :
    (n : ℕ) (g h : Progress) (a : RecoveryAction)
    → Accounts n g
    → h.actions ≡ g.actions ++ a ∷ []
    → h.errors ≡ g.errors
    → is_error a ≡ false
    → Accounts (suc n) h
push_action n g h a v e f k = record {
  count = ground (arith, v.count, e, length-append g.actions (a ∷ []));
  errors = ground (arith, v.errors, e, f, k, any-append is_error g.actions (a ∷ []));
}

push_error :
    (n : ℕ) (g h : Progress) (a : RecoveryAction) (m : String)
    → Accounts n g
    → h.actions ≡ g.actions ++ a ∷ []
    → h.errors ≡ g.errors ++ m ∷ []
    → is_error a ≡ true
    → Accounts (suc n) h
push_error n g h a m v e f k = record {
  count = ground (arith, v.count, e, length-append g.actions (a ∷ []));
  errors =
      ground
        (arith, e, f, k, any-append is_error g.actions (a ∷ []), length-append g.errors (m ∷ []));
}

same_account :
    (n : ℕ) (g h : Progress)
    → Accounts n g
    → h.actions ≡ g.actions
    → h.errors ≡ g.errors
    → Accounts n h
same_account n g h v e f = record { count = rw e v.count; errors = rw (e, f) v.errors }

add_zero : (n : ℕ) → n + 0 ≡ n
add_zero n = omega arith

add_suc : (n k : ℕ) → suc n + k ≡ n + suc k
add_suc n k = omega arith

add_le : (a b c d : ℕ) → a ≤ c → b ≤ d → 0 + a + b ≤ c + d
add_le a b c d h k = omega arith

length-take-le : {A : Type 0} (n : ℕ) (xs : List A) → length (take n xs) ≤ n
length-take-le zero xs = omega arith
length-take-le (suc n) [] = omega arith
length-take-le (suc n) (x ∷ xs) = let h = length-take-le n xs in omega arith

module _ (p : Platform) (q : TaskQueue) (now : Time) (ms : ℕ) where
  after_quarantine-Accounts :
      (n : ℕ) (id reason : String) (g : Progress) (r : Result Claim × q.State)
      → Accounts n g
      → Accounts (suc n) (after_quarantine p q now ms id reason g r).0
  after_quarantine-Accounts n id reason g (ok c, s) v = push_action n g _ _ v refl refl refl
  after_quarantine-Accounts n id reason g (err e, s) v = push_error n g _ _ _ v refl refl refl

  failed_claim-Accounts :
      (n : ℕ) (c : Claim) (g : Progress)
      → Accounts n g
      → Accounts (suc n) (failed_claim p q now ms c g)
  failed_claim-Accounts n c g v =
      elim (Bool-cases (same_status c.task.status TaskStatus.quarantined)) [
        | inl e ↦ rw e (push_action n g _ _ v refl refl refl)
        | inr e ↦ rw e (push_action n g _ _ v refl refl refl)
      ]

  after_fail-Accounts :
      (n : ℕ) (id : String) (g : Progress) (r : Result Claim × q.State)
      → Accounts n g
      → Accounts (suc n) (after_fail p q now ms id g r).0
  after_fail-Accounts n id g (ok c, s) v = failed_claim-Accounts n c g v
  after_fail-Accounts n id g (err e, s) v = push_error n g _ _ _ v refl refl refl

  after_renew-Accounts :
      (n : ℕ) (id : String) (g : Progress) (r : Result Claim × q.State)
      → Accounts n g
      → Accounts (suc n) (after_renew p q now ms id g r).0
  after_renew-Accounts n id g (err e, s) v = push_error n g _ _ _ v refl refl refl
  after_renew-Accounts n id g (ok c, s) v =
      let h = renew_progress c.task.id g in
      let w = same_account n g h v refl refl in
      elim (Bool-cases (leb c.task.max_attempts (length c.task.attempts))) [
        | inl b ↦ rw b (
            after_quarantine-Accounts n id (review_reason p q now ms c.task) h
              (q.quarantine c.task.id c.task_run.id (review_reason p q now ms c.task) now s) w)
        | inr b ↦
            rw b (after_fail-Accounts n id h (q.fail c.task.id c.task_run.id redrive_error now s) w)
      ]

  after_claim-Accounts :
      (n : ℕ) (id : String) (g : Progress) (r : Result (Option Claim) × q.State)
      → Accounts n g
      → Accounts (suc n) (after_claim p q now ms id g r).0
  after_claim-Accounts n id g (err e, s) v = push_error n g _ _ _ v refl refl refl
  after_claim-Accounts n id g (ok none, s) v = push_action n g _ _ v refl refl refl
  after_claim-Accounts n id g (ok (some c), s) v =
      let h = recover_lease c.task.id g in
      after_renew-Accounts n id h (q.renew_lease c.task.id c.task_run.id now ms s)
        (same_account n g h v refl refl)

  after_requeue-Accounts :
      (n : ℕ) (t : Task) (g : Progress) (r : Result Task × q.State)
      → Accounts n g
      → Accounts (suc n) (after_requeue p q now ms t g r).0
  after_requeue-Accounts n t g (ok u, s) v = push_action n g _ _ v refl refl refl
  after_requeue-Accounts n t g (err e, s) v = push_error n g _ _ _ v refl refl refl

  recover_leases-Accounts :
      (n : ℕ) (ts : List Task) (g : Progress) (s : q.State)
      → Accounts n g
      → Accounts (n + length ts) (recover_leases p q now ms ts g s).0
  unfolding recover_leases
  recover_leases-Accounts n [] g s v = rw (add_zero n) v
  recover_leases-Accounts n (t ∷ ts) g s v =
      let r = after_claim p q now ms t.id g (q.claim t.id now s) in
      subst (λ k. Accounts k (recover_leases p q now ms ts r.0 r.1).0) (add_suc n (length ts))
        (recover_leases-Accounts (suc n) ts r.0 r.1
          (after_claim-Accounts n t.id g (q.claim t.id now s) v))

  requeue_tasks-Accounts :
      (n : ℕ) (ts : List Task) (g : Progress) (s : q.State)
      → Accounts n g
      → Accounts (n + length ts) (requeue_tasks p q now ms ts g s).0
  unfolding requeue_tasks
  requeue_tasks-Accounts n [] g s v = rw (add_zero n) v
  requeue_tasks-Accounts n (t ∷ ts) g s v =
      let r = after_requeue p q now ms t g (q.requeue t.id now s) in
      subst (λ k. Accounts k (requeue_tasks p q now ms ts r.0 r.1).0) (add_suc n (length ts))
        (requeue_tasks-Accounts (suc n) ts r.0 r.1
          (after_requeue-Accounts n t g (q.requeue t.id now s) v))

  -- Both loops record one action for each task that they take, so no more than the limits together.
  recover-Accounts :
      (limit redrive : ℕ) (s : q.State)
      → (n : ℕ) × (n ≤ limit + redrive) × Accounts n (recover p q now ms limit redrive s).0
  unfolding recover lease_candidates terminal_tasks
  recover-Accounts limit redrive s =
      let candidates = lease_candidates now limit (q.list s) in
      let r = recover_leases p q now ms candidates no_progress s in
      let terminal = terminal_tasks redrive r.0 (q.list r.1) in
      (
        (0 + length candidates) + length terminal,
        add_le (length candidates) (length terminal) limit redrive (length-take-le limit _)
            (length-take-le redrive _),
        requeue_tasks-Accounts (0 + length candidates) terminal r.0 r.1 (
            recover_leases-Accounts 0 candidates no_progress s
              (record { count = refl; errors = refl })),
      )

-- A recovery cycle over any queue, whatever its operations return or throw: it records no more
-- actions than its limit of leases and its limit of redrives together, and it has failed exactly
-- where one of the actions is an error, and has succeeded otherwise.
pub recovery-accounts :
    (p : Platform) (q : TaskQueue) (now clock : Time) (id lease_owner : String)
    (options : RecoveryOptions) (s : Plane q)
    → (m : RecoveryMetadata) × ((run_recovery_cycle p q now id lease_owner clock options
          s).0.metadata
        ≡ some m)
      × (length m.recovery_actions ≤ lease_recovery_limit_of options + redrive_limit_of options)
      × ((run_recovery_cycle p q now id lease_owner clock options s).0.status
          ≡ (if any is_error m.recovery_actions then failed else succeeded))
unfolding run_recovery_cycle finished_record update_cycle create_automation_cycle recovery_metadata
recovery-accounts p q now clock id lease_owner options s =
    let (n, bound, v) =
      recover-Accounts p q now (renew_lease_ms_of options) (lease_recovery_limit_of options)
        (redrive_limit_of options) s.queue in
    (_, refl, ground (arith, v.count, bound), rw v.errors refl)
