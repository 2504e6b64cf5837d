-- ===== src/Queue/Invariant/Claiming.antt =====
-- Enqueueing and claiming (packages/queue-adapters/src/index.ts) keep the invariant of the queue.
use Prim.Native.String.{◌++◌ as concat, ◌∷◌ as cons}
use Prim.Native.String.append
use Prim.Native.Char.{Char}
use gana_v.Prelude.{
  ℕ, ◌+◌, String, ◌≡◌, ◌≢◌, refl, sym, ◌∙◌, inl, inr, true, Option, none, some, arith, Bool-cases,
  Option-cases, All-keep, All-head, All-keep_test, Kept-All, length,
}
use gana_v.Prelude.Sort.{All-sort}
use gana_v.Prelude.Texts.{str_eq, str_eq_iff, truthy}
use gana_v.Storage.{get_by_id, save}
use gana_v.Storage.Laws.{Distinct-save, Distinct-IsListed, IsListed, All-save, get_by_id-id}
use gana_v.Queue.Task.{TaskStatus, TaskKind, Time, Task, same_status, task_key, run_key}
use gana_v.Queue.Lifecycle.{ok, Result-cases, start_task, default_lease_owner, default_lease_ms}
use gana_v.Queue.Select.{queued_before, next_ready_task}
use gana_v.Queue.Store.{Platform, Store, find_by_status}
use gana_v.Queue.Enqueue.{EnqueueInput, enqueue_id, enqueue}
use gana_v.Queue.Claims.{
  task_run_id, new_run, start_claim, start_if_some, recycle_expired, claim_next, claimable, claim,
}
use gana_v.Queue.Owners.{IsLeased, IsOwned-save_idle, IsOwned-start}
use gana_v.Queue.Leases.{start_task-IsLeased}
use gana_v.Queue.Invariant.{IsConsistent, recycle_expired-IsConsistent}

cons-ne-nil : (c : Char) (s : String) → cons c s ≡ String.[] → ⊥
cons-ne-nil c s e = cc

truthy-concat :
    (c : Char) (s t : String) → truthy (some (concat (cons c s) t)) ≡ some (concat (cons c s) t)
truthy-concat c s t = elim (Bool-cases (str_eq (concat (cons c s) t) "")) [
  | inl e ↦ absurd (
      cons-ne-nil c (concat s t)
        (sym (append.cons c s t) ∙ (str_eq_iff (concat (cons c s) t) "").0 e))
  | inr e ↦ rw e
]

-- The id of a run is not empty.
pub truthy-task_run_id :
    (p : Platform) (t : Task) (n : ℕ) (now : Time)
    → truthy (some (task_run_id p t n now)) ≡ some (task_run_id p t n now)
unfolding task_run_id
truthy-task_run_id p t n now = truthy-concat _ _ _

module _ (p : Platform) (t : Task) (now : Time) (s : Store) where
  abbrev pub run_id : String
  run_id = task_run_id p t (length t.attempts + 1) now

  pub start_claim-eq :
      (u : Task)
      → start_task t now default_lease_owner default_lease_ms (some run_id) ≡ ok u
      → start_claim p t now s ≡ (
        ok (some (record { task = u; task_run = new_run run_id t now })),
        record {
          tasks = save task_key u s.tasks;
          task_runs = save run_key (new_run run_id t now) s.task_runs;
        },
      )
  start_claim-eq u e = unfold start_claim in rw e

  pub start_claim-IsConsistent :
      IsConsistent s
      → IsListed task_key s.tasks t
      → same_status t.status TaskStatus.queued ≡ true
      → IsConsistent (start_claim p t now s).1
  start_claim-IsConsistent v listed q =
      elim (Result-cases (start_task t now default_lease_owner default_lease_ms (some run_id))) [
        | inl (e, f) ↦ unfold start_claim in rw f v
        | inr (u, f) ↦
            let (leased, same_id, running, active) =
              start_task-IsLeased t u now default_lease_owner default_lease_ms run_id refl
                (truthy-task_run_id p t (length t.attempts + 1) now) f in
            rw (start_claim-eq u f) (record {
              distinct = Distinct-save task_key u s.tasks v.distinct;
              leased = All-save task_key IsLeased u s.tasks leased v.leased;
              owned =
                  IsOwned-start s.tasks s.task_runs v.owned u (new_run run_id t now)
                    (idle u same_id) (sym same_id) (running, active);
            })
      ]
    where
      idle :
          (u : Task)
          → u.id ≡ t.id
          → (old : Task) → get_by_id task_key u.id s.tasks ≡ some old
          → old.status ≢ TaskStatus.running
      idle u same_id old found = ground (arith, listed, same_id)

abbrev pub IsWaiting : Store → Task → Type 0
IsWaiting s t = IsListed task_key s.tasks t × (same_status t.status TaskStatus.queued ≡ true)

-- What a search for the next task returns is listed and queued.
pub next_ready_task-IsListed :
    (s : Store) (kind : Option TaskKind) (now : Time) (t : Task)
    → IsConsistent s
    → next_ready_task (find_by_status TaskStatus.queued s.tasks) kind now ≡ some t
    → IsWaiting s t
unfolding next_ready_task find_by_status
next_ready_task-IsListed s kind now t v e =
    let listed = Distinct-IsListed task_key s.tasks v.distinct in
    let kept = All-keep_test (IsListed task_key s.tasks) _ s.tasks listed in
    let waiting = Kept-All (IsListed task_key s.tasks) (IsWaiting s) _ (λ x h q. (h, q)) _ kept in
    All-head (IsWaiting s) _ t
      (All-sort queued_before (IsWaiting s) _ (All-keep (IsWaiting s) _ _ waiting)) e

module _ (p : Platform) (now : Time) (s : Store) (v : IsConsistent s) where
  start_if_some-IsConsistent :
      (o : Option Task)
      → ((t : Task) → o ≡ some t → IsWaiting s t)
      → IsConsistent (start_if_some p o now s).1
  unfolding start_if_some
  start_if_some-IsConsistent none h = v
  start_if_some-IsConsistent (some t) h =
      start_claim-IsConsistent p t now s v (h t refl).0 (h t refl).1

-- A claim of the next task keeps the invariant.
pub claim_next-IsConsistent :
    (p : Platform) (kind : Option TaskKind) (now : Time) (s : Store)
    → IsConsistent s
    → IsConsistent (claim_next p kind now s).1
unfolding claim_next
claim_next-IsConsistent p kind now s v =
    let w = recycle_expired-IsConsistent now s v in
    start_if_some-IsConsistent p now (recycle_expired now s) w _
      (λ t e. next_ready_task-IsListed (recycle_expired now s) kind now t w e)

pub claimable-IsListed :
    (task_id : String) (now : Time) (s : Store) (t : Task)
    → claimable (get_by_id task_key task_id s.tasks) now ≡ some t
    → IsWaiting s t
unfolding claimable
claimable-IsListed task_id now s t e = elim (Option-cases (get_by_id task_key task_id s.tasks)) [
  | inl n ↦ absurd (ground (arith, n))
  | inr (u, f) ↦ ground (arith, f, get_by_id-id task_key task_id s.tasks u f)
]

pub claimable-id :
    (task_id : String) (now : Time) (s : Store) (t : Task)
    → claimable (get_by_id task_key task_id s.tasks) now ≡ some t
    → t.id ≡ task_id
unfolding claimable
claimable-id task_id now s t e = elim (Option-cases (get_by_id task_key task_id s.tasks)) [
  | inl n ↦ absurd (ground (arith, n))
  | inr (u, f) ↦ ground (arith, f, get_by_id-id task_key task_id s.tasks u f)
]

-- So does a claim of one task.
pub claim-IsConsistent :
    (p : Platform) (task_id : String) (now : Time) (s : Store)
    → IsConsistent s
    → IsConsistent (claim p task_id now s).1
unfolding claim
claim-IsConsistent p task_id now s v =
    let w = recycle_expired-IsConsistent now s v in
    start_if_some-IsConsistent p now (recycle_expired now s) w _
      (λ t e. claimable-IsListed task_id now (recycle_expired now s) t e)

-- A new task may take the place of a task that does not run, and of no other.
pub enqueue-IsConsistent :
    (p : Platform) (input : EnqueueInput) (now : Time) (s : Store)
    → IsConsistent s
    → ((old : Task)
        → get_by_id task_key (enqueue_id p input now) s.tasks ≡ some old
        → old.status ≢ TaskStatus.running)
    → IsConsistent (enqueue p input now s).1
unfolding enqueue
enqueue-IsConsistent p input now s v idle = record {
  distinct = Distinct-save task_key _ s.tasks v.distinct;
  leased = All-save task_key IsLeased _ s.tasks (ground arith) v.leased;
  owned = IsOwned-save_idle s.tasks s.task_runs v.owned _ idle;
}
