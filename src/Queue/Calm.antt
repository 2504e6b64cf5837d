-- ===== src/Queue/Calm.antt =====
-- A claim leaves no lease that is over, and no later operation at that time makes one
-- (packages/queue-adapters/src/index.ts).
use gana_v.Prelude.{ℕ, ◌<◌, String, ◌≡◌, refl, inl, inr, false, Option, none, some, List, arith}
use gana_v.Storage.{get_by_id}
use gana_v.Storage.Laws.{All-save}
use gana_v.Queue.Task.{TaskStatus, Time, Task, same_status, TaskRun, task_key}
use gana_v.Queue.Lifecycle.{
  ok, Result-cases, has_expired_lease, start_task, default_lease_owner, default_lease_ms,
  renew_task_lease,
}
use gana_v.Queue.Store.{Platform, Store}
use gana_v.Queue.Claims.{recycle_expired, start_claim, start_if_some, claimable, claim}
use gana_v.Queue.Adapter.{save_claim, renew_lease, renew_claim, fail, quarantine, requeue}
use gana_v.Queue.Invariant.{IsConsistent}
use gana_v.Queue.Invariant.Claiming.{run_id, start_claim-eq}
use gana_v.Queue.Invariant.Finishing.{after_lift, after_claim}
use gana_v.Queue.Idling.{IsIdle, with_task, quarantine-keeps, fail-keeps, requeue-keeps}
use gana_v.Queue.Recycled.{IsCalm, recycle_expired-IsCalm}

-- A lease that begins at `now` and has a length is not over at `now`.
started :
    (t u : Task) (id : String) (now : Time)
    → start_task t now default_lease_owner default_lease_ms (some id) ≡ ok u
    → has_expired_lease u now ≡ false
unfolding start_task has_expired_lease
started t u id now f = ground arith

renewed :
    (t u : Task) (ms : ℕ) (now : Time)
    → 0 < ms
    → renew_task_lease t now ms default_lease_owner ≡ ok u
    → has_expired_lease u now ≡ false
unfolding renew_task_lease has_expired_lease
renewed t u ms now positive f = ground arith

idle_live :
    (u : Task) (now : Time)
    → same_status u.status TaskStatus.running ≡ false
    → has_expired_lease u now ≡ false
unfolding has_expired_lease
idle_live u now idle = rw idle refl

save_idle :
    (now : Time) (s : Store) (u : Task) (runs : List TaskRun)
    → IsCalm now s
    → IsIdle u
    → IsCalm now (with_task s u runs)
save_idle now s u runs v (leased, idle) =
    All-save task_key (λ t. has_expired_lease t now ≡ false) u s.tasks (idle_live u now idle) v

module _ (now : Time) (s : Store) (v : IsCalm now s) where
  save-IsCalm :
      (u : Task) (run : TaskRun)
      → has_expired_lease u now ≡ false
      → IsCalm now (save_claim u run s).1
  unfolding save_claim
  save-IsCalm u run live = All-save task_key (λ t. has_expired_lease t now ≡ false) u s.tasks live v

  start_claim-IsCalm : (p : Platform) (t : Task) → IsCalm now (start_claim p t now s).1
  start_claim-IsCalm p t =
      elim (Result-cases
        (start_task t now default_lease_owner default_lease_ms (some (run_id p t now s)))) [
          | inl (e, f) ↦ unfold start_claim in rw f v
          | inr (u, f) ↦ rw (start_claim-eq p t now s u f) (
              All-save task_key (λ t. has_expired_lease t now ≡ false) u s.tasks
                (started t u (run_id p t now s) now f) v)
        ]

  start_if_some-IsCalm : (p : Platform) (o : Option Task) → IsCalm now (start_if_some p o now s).1
  unfolding start_if_some
  start_if_some-IsCalm p none = v
  start_if_some-IsCalm p (some t) = start_claim-IsCalm p t

  pub renew_lease-IsCalm :
      (k j : String) (ms : ℕ) → 0 < ms → IsCalm now (renew_lease k j now ms s).1
  unfolding renew_lease renew_claim
  renew_lease-IsCalm k j ms positive =
      after_claim (IsCalm now) s v k j now (renew_claim now ms) λ c h.
        after_lift (IsCalm now) s v (renew_task_lease c.task now ms default_lease_owner)
          (λ u. save_claim u (record c.task_run { updated_at = now }))
          λ u e.
            save-IsCalm u (record c.task_run { updated_at = now })
              (renewed c.task u ms now positive e)

  pub quarantine-IsCalm : (k j reason : String) → IsCalm now (quarantine k j reason now s).1
  quarantine-IsCalm = quarantine-keeps (IsCalm now) (save_idle now) now s v

  pub fail-IsCalm : (k j error : String) → IsCalm now (fail k j error now s).1
  fail-IsCalm = fail-keeps (IsCalm now) (save_idle now) now s v

  pub requeue-IsCalm : (k : String) → IsCalm now (requeue k now s).1
  requeue-IsCalm = requeue-keeps (IsCalm now) (save_idle now) now s v

-- A claim of any task, whether it starts one or not, leaves no lease that is over.
pub claim-IsCalm :
    (p : Platform) (k : String) (now : Time) (s : Store)
    → IsConsistent s
    → IsCalm now (claim p k now s).1
unfolding claim
claim-IsCalm p k now s v =
    start_if_some-IsCalm now (recycle_expired now s) (recycle_expired-IsCalm now s v) p
      (claimable (get_by_id task_key k (recycle_expired now s).tasks) now)
