-- ===== src/Queue/Claimed.antt =====
-- What a claim of one task returns (packages/queue-adapters/src/index.ts): it does not throw, and the
-- claim is one that the worker's operations accept.
use gana_v.Prelude.{◌+◌, String, ◌≡◌, refl, sym, Option, none, some, arith, true}
use gana_v.Prelude.Texts.{str_eq_refl}
use gana_v.Storage.{get_by_id}
use gana_v.Storage.Laws.{get_by_id-save}
use gana_v.Queue.Task.{TaskStatus, Time, Task, Claim, same_status, task_key, run_key}
use gana_v.Queue.Lifecycle.{Result, ok, err}
use gana_v.Queue.Store.{Platform, Store}
use gana_v.Queue.Claims.{new_run, start_claim, start_if_some, claimable, claim, recycle_expired}
use gana_v.Queue.Held.{IsHeld}
use gana_v.Queue.Exclusion.{claim_id, starts}
use gana_v.Queue.Invariant.Claiming.{claimable-IsListed}

-- A claim, if there is one, is held in the store that it leaves.
abbrev pub IsClaim : Time → Result (Option Claim) × Store → Type 0
IsClaim now (ok (some c), s) = IsHeld c.task.id c.task_run.id now s c
IsClaim now (ok none, s) = Unit
IsClaim now (err e, s) = ⊥

module _ (p : Platform) (now : Time) (s : Store) where
  start_claim-IsClaim :
      (t : Task)
      → same_status t.status TaskStatus.queued ≡ true
      → IsClaim now (start_claim p t now s)
  start_claim-IsClaim t queued =
      let (u, e, started) = starts p now s t queued in
      let run = new_run (claim_id p now t) t now in
      rw e (record {
        task_found = ground (arith, str_eq_refl u.id, get_by_id-save task_key u u.id s.tasks);
        run_found =
            ground (arith, str_eq_refl run.id, get_by_id-save run_key run run.id s.task_runs);
        holds = record {
          own = sym started.same_id;
          task_runs = started.status;
          run_runs = refl;
          active = started.active;
          owner = ground (arith, started.owner);
          lease = (now + 300000, started.lease, omega arith);
        };
      })

  start_if_some-IsClaim :
      (o : Option Task)
      → ((t : Task) → o ≡ some t → same_status t.status TaskStatus.queued ≡ true)
      → IsClaim now (start_if_some p o now s)
  unfolding start_if_some
  start_if_some-IsClaim none queued = tt
  start_if_some-IsClaim (some t) queued = start_claim-IsClaim t (queued t refl)

pub claim-IsClaim :
    (p : Platform) (k : String) (now : Time) (s : Store) → IsClaim now (claim p k now s)
unfolding claim
claim-IsClaim p k now s =
    let s' = recycle_expired now s in
    start_if_some-IsClaim p now s' (claimable (get_by_id task_key k s'.tasks) now)
      (λ t e. (claimable-IsListed k now s' t e).1)
