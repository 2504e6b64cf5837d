-- ===== src/Queue/Recycled.antt =====
-- No lease is over once expired leases are recycled, and the other operations leave none that is over
-- (packages/queue-adapters/src/index.ts).
use gana_v.Prelude.{
  ◌≡◌, refl, sym, ◌∙◌, inl, inr, Bool, true, false, List, [], ◌∷◌, arith, Memᴰ, Bool-cases, All,
  All-map, All-keep, keep,
}
use gana_v.Prelude.Find.{all_of_mem}
use gana_v.Prelude.Texts.{str_eq, str_eq_refl, truthy}
use gana_v.Storage.Laws.{All-save_apart, Distinct, IsListed, Distinct-keep, Distinct-IsListed}
use gana_v.Queue.Task.{TaskStatus, Time, Task, same_status, task_key}
use gana_v.Queue.Lifecycle.{has_expired_lease, recycle_expired_lease_task}
use gana_v.Queue.Store.{Store, find_by_status}
use gana_v.Queue.Claims.{recycle_task, recycle_tasks, recycle_expired}
use gana_v.Queue.Invariant.{
  IsConsistent, tasks-close_expired_run, recycle_task-IsConsistent, recycle_all-IsListed,
}
use mathlib.Core.Bool.{false≢true}

-- No task of the store has a lease that is over at `now`.
abbrev pub IsCalm : Time → Store → Type 0
IsCalm now s = All (λ t. has_expired_lease t now ≡ false) s.tasks

-- Each task whose lease is over is in the list.
abbrev IsPending : Time → List Task → Store → Type 0
IsPending now ts s = All (λ x. has_expired_lease x now ≡ true → Memᴰ x ts) s.tasks

recycled-live :
    (t : Task) (now : Time) → has_expired_lease (recycle_expired_lease_task t now) now ≡ false
unfolding has_expired_lease recycle_expired_lease_task
recycled-live t now = refl

other_than : (t x : Task) (ts : List Task) → str_eq x.id t.id ≡ false → Memᴰ x (t ∷ ts) → Memᴰ x ts
other_than t x ts e (Memᴰ.head same) = absurd (ground (arith, str_eq_refl t.id, same))
other_than t x ts e (Memᴰ.tail i) = i

live_is_other :
    (t x : Task) (ts : List Task) (now : Time)
    → has_expired_lease t now ≡ false
    → has_expired_lease x now ≡ true
    → Memᴰ x (t ∷ ts)
    → Memᴰ x ts
live_is_other t x ts now live e (Memᴰ.head same) = absurd (ground (arith, same))
live_is_other t x ts now live e (Memᴰ.tail i) = i

recycle_task-IsPending :
    (t : Task) (ts : List Task) (now : Time) (s : Store)
    → IsConsistent s
    → IsPending now (t ∷ ts) s
    → IsPending now ts (recycle_task t now s)
recycle_task-IsPending t ts now s v h = elim (Bool-cases (has_expired_lease t now)) [
  | inl e ↦
      unfold recycle_task in
      rw (e, tasks-close_expired_run now s (truthy t.active_task_run_id))
        (All-save_apart task_key (λ x. has_expired_lease x now ≡ true → Memᴰ x ts)
          (unfold recycle_expired_lease_task in recycle_expired_lease_task t now) s.tasks v.distinct
          (λ f. absurd (false≢true (sym (recycled-live t now) ∙ f)))
          (All-map _ _ (λ x g apart f. other_than t x ts apart (g f)) s.tasks h))
  | inr e ↦
      unfold recycle_task in
      rw e (All-map _ _ (λ x g f. live_is_other t x ts now e f (g f)) s.tasks h)
]

recycle_tasks-IsPending :
    (ts : List Task) (now : Time) (s : Store)
    → IsConsistent s
    → Distinct task_key ts
    → All (IsListed task_key s.tasks) ts
    → IsPending now ts s
    → IsPending now [] (recycle_tasks ts now s)
unfolding recycle_tasks
recycle_tasks-IsPending [] now s v d l h = h
recycle_tasks-IsPending (t ∷ ts) now s v (f, d) (l, ls) h =
    recycle_tasks-IsPending ts now (recycle_task t now s) (recycle_task-IsConsistent t now s v l) d
      (recycle_all-IsListed t now s ts f ls) (recycle_task-IsPending t ts now s v h)

mem-keep :
    {A : Type 0} (p : A → Bool) (xs : List A) (x : A) → Memᴰ x xs → p x ≡ true → Memᴰ x (keep p xs)
mem-keep p [] x i e = elim i [ ]
mem-keep p (y ∷ ys) x (Memᴰ.head same) e = rw (sym same, e) (Memᴰ.head refl)
mem-keep p (y ∷ ys) x (Memᴰ.tail i) e = elim (Bool-cases (p y)) [
  | inl t ↦ rw t (Memᴰ.tail (mem-keep p ys x i e))
  | inr f ↦ rw f (mem-keep p ys x i e)
]

expired_runs :
    (t : Task) (now : Time)
    → has_expired_lease t now ≡ true
    → same_status t.status TaskStatus.running ≡ true
unfolding has_expired_lease
expired_runs t now e = ground arith

-- After the loop of a claim no lease is over.
pub recycle_expired-IsCalm :
    (now : Time) (s : Store) → IsConsistent s → IsCalm now (recycle_expired now s)
unfolding recycle_expired find_by_status
recycle_expired-IsCalm now s v =
    let runs : Task → Bool = λ t. same_status t.status TaskStatus.running in
    All-map (λ x. has_expired_lease x now ≡ true → Memᴰ x []) (λ x. has_expired_lease x now ≡ false)
      (λ x g. elim (Bool-cases (has_expired_lease x now)) [ inl e ↦ elim (g e) [ ] | inr e ↦ e ])
      (recycle_tasks (keep runs s.tasks) now s).tasks
      (recycle_tasks-IsPending (keep runs s.tasks) now s v
        (Distinct-keep task_key runs s.tasks v.distinct)
        (All-keep (IsListed task_key s.tasks) runs s.tasks
          (Distinct-IsListed task_key s.tasks v.distinct))
        (all_of_mem (λ x. has_expired_lease x now ≡ true → Memᴰ x (keep runs s.tasks)) s.tasks
          (λ x i e. mem-keep runs s.tasks x i (expired_runs x now e))))
