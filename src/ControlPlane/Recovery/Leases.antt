-- ===== src/ControlPlane/Recovery/Leases.antt =====
-- A recovery ends every lease that is over (packages/control-plane-runtime/src/recovery.ts), over the
-- in-memory queue.
use gana_v.Prelude.{
  ℕ, zero, suc, ◌<◌, ◌≡◌, refl, String, Bool, false, some, List, [], ◌∷◌, arith, keep, keep-nil,
  take, inl, inr, Bool-cases, Option-cases, All, All-map, All-map_with,
}
use gana_v.Prelude.Sort.{sort-nil}
use gana_v.Prelude.Unique.{unique}
use gana_v.Queue.Task.{TaskStatus, Time, Task, same_status}
use gana_v.Queue.Lifecycle.{has_expired_lease}
use gana_v.Queue.Store.{Platform, Store}
use gana_v.Queue.Owners.{IsLeased}
use gana_v.Queue.Invariant.{IsConsistent}
use gana_v.Queue.Invariant.Claiming.{claim-IsConsistent}
use gana_v.Queue.Invariant.Finishing.{
  renew_lease-IsConsistent, fail-IsConsistent, quarantine-IsConsistent, requeue-IsConsistent,
}
use gana_v.Queue.Recycled.{IsCalm}
use gana_v.Queue.Calm.{
  claim-IsCalm, renew_lease-IsCalm, fail-IsCalm, quarantine-IsCalm, requeue-IsCalm,
}
use gana_v.ControlPlane.Adapter.{in_memory}
use gana_v.ControlPlane.Shared.{
  dedupe_strings, has_expired_task_lease, task_lease_deadline, assess_queue_health,
}
use gana_v.ControlPlane.Cycle.{create_automation_cycle, update_cycle}
use gana_v.ControlPlane.Recovery.{
  Progress, RecoveryOptions, no_progress, lease_recovery_limit_of, redrive_limit_of,
  renew_lease_ms_of, after_claim, recover_leases, lease_candidates, terminal_tasks, recover,
}
use gana_v.ControlPlane.Recovery.Lists.{due_before}
use gana_v.ControlPlane.Recovery.Report.{
  RecoveryMetadata, Plane, assess, recovery_metadata, finished_record, run_recovery_cycle,
}
use gana_v.ControlPlane.Recovery.Keeps.{
  after_claim-keeps, recover_leases-keeps, requeue_tasks-keeps,
}

-- The two tests of a lease agree on a task whose lease fields agree with its status.
not_expired :
    (t : Task) (now : Time)
    → IsLeased t
    → has_expired_task_lease now t ≡ false
    → has_expired_lease t now ≡ false
unfolding has_expired_task_lease has_expired_lease task_lease_deadline
not_expired t now v e = elim (Bool-cases (same_status t.status TaskStatus.running)) [
  | inl r ↦ elim (Option-cases t.lease_expires_at) [
    | inl n ↦ absurd (let (o, x, a, l) = v.leased r in ground (arith, n))
    | inr (at, f) ↦ ground (arith, f)
  ]
  | inr r ↦ rw r refl
]

not_expired_either :
    (t : Task) (now : Time) → has_expired_lease t now ≡ false → has_expired_task_lease now t ≡ false
unfolding has_expired_task_lease has_expired_lease task_lease_deadline
not_expired_either t now e = ground arith

keep-none : {A : Type 0} (p : A → Bool) (xs : List A) → All (λ x. p x ≡ false) xs → keep p xs ≡ []
keep-none p [] h = refl
keep-none p (x ∷ xs) (f, h) = rw f (keep-none p xs h)

take-nil : {A : Type 0} (n : ℕ) (xs : List A) → 0 < n → take n xs ≡ [] → xs ≡ []
take-nil zero xs positive e = ground arith
take-nil (suc n) [] positive e = refl
take-nil (suc n) (x ∷ xs) positive e = cc

-- Without a candidate no lease is over.
no_candidates :
    (now : Time) (limit : ℕ) (s : Store)
    → IsConsistent s
    → 0 < limit
    → lease_candidates now limit s.tasks ≡ []
    → IsCalm now s
unfolding lease_candidates
no_candidates now limit s v positive e =
    All-map_with (λ t. has_expired_task_lease now t ≡ false) (λ t. has_expired_lease t now ≡ false)
      (λ t leased f. not_expired t now leased f) s.tasks v.leased
      (keep-nil (has_expired_task_lease now) s.tasks
        (sort-nil due_before _ (take-nil limit _ positive e)))

-- What holds of the store once one claim was tried.
abbrev IsSettled : Time → Store → Type 0
IsSettled now s = IsConsistent s × IsCalm now s

module _ (p : Platform) (now : Time) (ms : ℕ) (positive : 0 < ms) where
  renews :
      (k j : String) (s : Store)
      → IsSettled now s
      → IsSettled now ((in_memory p).renew_lease k j now ms s).1
  renews k j s (v, c) =
      (renew_lease-IsConsistent k j now s v ms, renew_lease-IsCalm now s c k j ms positive)

  fails :
      (k j e : String) (s : Store)
      → IsSettled now s
      → IsSettled now ((in_memory p).fail k j e now s).1
  fails k j e s (v, c) = (fail-IsConsistent k j now s v e, fail-IsCalm now s c k j e)

  quarantines :
      (k j e : String) (s : Store)
      → IsSettled now s
      → IsSettled now ((in_memory p).quarantine k j e now s).1
  quarantines k j e s (v, c) =
      (quarantine-IsConsistent k j now s v e, quarantine-IsCalm now s c k j e)

  requeues :
      (k : String) (s : Store) → IsSettled now s → IsSettled now ((in_memory p).requeue k now s).1
  requeues k s (v, c) = (requeue-IsConsistent k now s v, requeue-IsCalm now s c k)

  claims : (k : String) (s : Store) → IsConsistent s → IsSettled now ((in_memory p).claim k now s).1
  claims k s v = (claim-IsConsistent p k now s v, claim-IsCalm p k now s v)

  recover_leases-IsSettled :
      (ts : List Task) (g : Progress) (s : Store)
      → IsConsistent s
      → (ts ≡ [] → IsCalm now s)
      → IsSettled now (recover_leases p (in_memory p) now ms ts g s).1
  unfolding recover_leases
  recover_leases-IsSettled [] g s v calm = (v, calm refl)
  recover_leases-IsSettled (t ∷ ts) g s v calm =
      let r = (in_memory p).claim t.id now s in
      let q = after_claim p (in_memory p) now ms t.id g r in
      recover_leases-keeps p (in_memory p) now ms (IsSettled now) renews fails quarantines requeues
        (λ k s h. claims k s h.0) ts q.0 q.1
        (after_claim-keeps p (in_memory p) now ms (IsSettled now) renews fails quarantines requeues
          t.id g r (claims t.id s v))

  recover-IsSettled :
      (limit redrive : ℕ) (s : Store)
      → IsConsistent s
      → 0 < limit
      → IsSettled now (recover p (in_memory p) now ms limit redrive s).1
  unfolding recover
  recover-IsSettled limit redrive s v some_limit =
      let candidates = lease_candidates now limit s.tasks in
      let r = recover_leases p (in_memory p) now ms candidates no_progress s in
      requeue_tasks-keeps p (in_memory p) now ms (IsSettled now) renews fails quarantines requeues
        (terminal_tasks redrive r.0 r.1.tasks) r.0 r.1
        (recover_leases-IsSettled candidates no_progress s v
          (no_candidates now limit s v some_limit))

no_expired_ids :
    (p : Platform) (now : Time) (s : Store)
    → IsCalm now s
    → (assess p (in_memory p) now s).expired_lease_task_ids ≡ []
unfolding assess_queue_health dedupe_strings unique
no_expired_ids p now s c =
    rw
      (keep-none (has_expired_task_lease now) s.tasks (
        All-map (λ t. has_expired_lease t now ≡ false) (λ t. has_expired_task_lease now t ≡ false)
          (λ t f. not_expired_either t now f) s.tasks c))
      refl

-- A recovery cycle over the in-memory queue, in a consistent store, at any time and with a limit of
-- leases that is not 0: once it has finished, no running task has a lease that is over at its time,
-- and the health of the queue that it records then names no expired lease.
pub recovery-IsCalm :
    (p : Platform) (now clock : Time) (id lease_owner : String) (options : RecoveryOptions)
    (s : Plane (in_memory p))
    → IsConsistent s.queue
    → 0 < lease_recovery_limit_of options
    → IsCalm now (run_recovery_cycle p (in_memory p) now id lease_owner clock options s).1.queue
      × ((m : RecoveryMetadata) × ((run_recovery_cycle p
              (in_memory p)
              now
              id
              lease_owner
              clock
              options
              s).0.metadata
            ≡ some m)
          × (m.queue_health_after.expired_lease_task_ids ≡ []))
unfolding run_recovery_cycle finished_record update_cycle create_automation_cycle recovery_metadata
recovery-IsCalm p now clock id lease_owner options s v some_limit =
    let long : 0 < renew_lease_ms_of options = omega arith in
    let (w, c) =
      recover-IsSettled p now (renew_lease_ms_of options) long (lease_recovery_limit_of options)
        (redrive_limit_of options) s.queue v some_limit in
    (
      c,
      (
        _,
        refl,
        no_expired_ids p now
            (recover p (in_memory p) now (renew_lease_ms_of options)
              (lease_recovery_limit_of options) (redrive_limit_of options) s.queue).1
            c,
      ),
    )
