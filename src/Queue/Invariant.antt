-- ===== src/Queue/Invariant.antt =====
-- The invariant of the queue (packages/queue-adapters/src/index.ts) and the loop that recycles
-- expired leases. The other operations are in the modules below.
pub mod Claiming
pub mod Finishing
use gana_v.Prelude.{
  ℕ, String, ◌≡◌, ◌≢◌, refl, sym, ap, ◌∙◌, inl, inr, Bool, true, false, Option, none, some, List,
  [], ◌∷◌, arith, if◌then◌else◌, Bool-cases, Option-cases, All, All-keep, is_some,
}
use gana_v.Prelude.Texts.{str_eq, str_eq_iff, str_eq_refl, truthy}
use gana_v.Storage.{get_by_id, save}
use gana_v.Storage.Laws.{
  Fresh, Distinct, get_by_id-save, get_by_id-id, Distinct-save, Distinct-keep, Distinct-IsListed,
  IsListed, IsListed-save, All-save, All-get_by_id,
}
use gana_v.Queue.Task.{
  TaskStatus, RunStatus, Time, Task, TaskRun, same_status, is_running, task_key, run_key,
}
use gana_v.Queue.Lifecycle.{
  has_expired_lease, recycle_expired_lease_task, create_expired_task_run,
  default_lease_expiry_error,
}
use gana_v.Queue.Store.{Store, find_by_status}
use gana_v.Queue.Claims.{close_expired_run, recycle_task, recycle_tasks, recycle_expired}
use gana_v.Queue.Owners.{IsLeased, IsOwned, IsClosed, RunsUnder, truthy-some, IsOwned-close}
use gana_v.Queue.Leases.{recycle-IsLeased}

-- What holds of a store between two operations.
pub record IsConsistent (s : Store) : Type 0 where
  pub distinct : Distinct task_key s.tasks
  pub leased : All IsLeased s.tasks
  pub owned : IsOwned s.tasks s.task_runs

module _ (now : Time) (s : Store) where
  pub tasks-close_expired_run : (o : Option String) → (close_expired_run o now s).tasks ≡ s.tasks
  unfolding close_expired_run
  tasks-close_expired_run o = ground arith

  close_expired_run-IsClosed :
      (k : String) → IsClosed k (close_expired_run (some k) now s).task_runs
  unfolding close_expired_run
  close_expired_run-IsClosed k r found running =
      elim (Option-cases (get_by_id run_key k s.task_runs)) [
        | inl e ↦ ground (arith, e)
        | inr (run, e) ↦ ground (
          arith,
          e,
          get_by_id-id run_key k s.task_runs run e,
          str_eq_refl k,
          get_by_id-save run_key
              (unfold create_expired_task_run in
                create_expired_task_run run now default_lease_expiry_error)
              k s.task_runs,
        )
      ]

  close_expired_run-others :
      (o k : String)
      → str_eq o k ≡ false
      → get_by_id run_key k (close_expired_run (some o) now s).task_runs
        ≡ get_by_id run_key k s.task_runs
  unfolding close_expired_run
  close_expired_run-others o k e = elim (Option-cases (get_by_id run_key o s.task_runs)) [
    | inl n ↦ ground (arith, n)
    | inr (run, f) ↦ ground (
      arith,
      f,
      get_by_id-id run_key o s.task_runs run f,
      get_by_id-save run_key
          (unfold create_expired_task_run in
            create_expired_task_run run now default_lease_expiry_error)
          k s.task_runs,
    )
  ]

expired_runs :
    (t : Task) (now : Time)
    → has_expired_lease t now ≡ true
    → IsLeased t
    → (k : String) × (truthy t.active_task_run_id ≡ some k)
unfolding has_expired_lease
expired_runs t now e v = elim (Option-cases (truthy t.active_task_run_id)) [
  | inl n ↦ absurd (ground (arith, n))
  | inr p ↦ p
]

pub recycled_id : (t : Task) (now : Time) → (recycle_expired_lease_task t now).id ≡ t.id
unfolding recycle_expired_lease_task
recycled_id t now = refl

recycle_task-eq :
    (t : Task) (now : Time) (s : Store) (k : String)
    → has_expired_lease t now ≡ true
    → truthy t.active_task_run_id ≡ some k
    → recycle_task t now s ≡ record {
      tasks = save task_key (recycle_expired_lease_task t now) s.tasks;
      task_runs = (close_expired_run (some k) now s).task_runs;
    }
recycle_task-eq t now s k e f =
    unfold recycle_task in rw (e, f, tasks-close_expired_run now s (some k))

-- One round of the loop, at a task that the store still holds as it was read.
pub recycle_task-IsConsistent :
    (t : Task) (now : Time) (s : Store)
    → IsConsistent s
    → IsListed task_key s.tasks t
    → IsConsistent (recycle_task t now s)
recycle_task-IsConsistent t now s v listed = elim (Bool-cases (has_expired_lease t now)) [
  | inl e ↦
      let (k, active) =
        expired_runs t now e (All-get_by_id task_key IsLeased t.id s.tasks t v.leased listed) in
      let u : Task = recycle_expired_lease_task t now in
      rw (recycle_task-eq t now s k e active) (record {
        distinct = Distinct-save task_key u s.tasks v.distinct;
        leased = All-save task_key IsLeased u s.tasks (recycle-IsLeased t now) v.leased;
        owned =
            IsOwned-close s.tasks s.task_runs v.owned u t k
              (close_expired_run (some k) now s).task_runs (rw (recycled_id t now) listed)
              (truthy-some _ k active) (close_expired_run-IsClosed now s k)
              (close_expired_run-others now s k);
      })
  | inr e ↦ unfold recycle_task in rw e v
]

-- It leaves the tasks of other ids as they are.
recycle_task-IsListed :
    (t : Task) (now : Time) (s : Store) (x : Task)
    → str_eq x.id t.id ≡ false
    → IsListed task_key s.tasks x
    → IsListed task_key (recycle_task t now s).tasks x
recycle_task-IsListed t now s x apart listed = elim (Bool-cases (has_expired_lease t now)) [
  | inl e ↦
      unfold recycle_task in
      rw (e, tasks-close_expired_run now s (truthy t.active_task_run_id))
        (IsListed-save task_key
          (unfold recycle_expired_lease_task in recycle_expired_lease_task t now) x s.tasks
          (rw (recycled_id t now) apart) listed)
  | inr e ↦ unfold recycle_task in rw e listed
]

pub recycle_all-IsListed :
    (t : Task) (now : Time) (s : Store) (xs : List Task)
    → Fresh task_key t.id xs
    → All (IsListed task_key s.tasks) xs
    → All (IsListed task_key (recycle_task t now s).tasks) xs
recycle_all-IsListed t now s [] f h = tt
recycle_all-IsListed t now s (x ∷ xs) (f, fs) (h, hs) =
    (recycle_task-IsListed t now s x f h, recycle_all-IsListed t now s xs fs hs)

pub recycle_tasks-IsConsistent :
    (ts : List Task) (now : Time) (s : Store)
    → IsConsistent s
    → Distinct task_key ts
    → All (IsListed task_key s.tasks) ts
    → IsConsistent (recycle_tasks ts now s)
unfolding recycle_tasks
recycle_tasks-IsConsistent [] now s v d h = v
recycle_tasks-IsConsistent (t ∷ ts) now s v (f, d) (h, hs) =
    recycle_tasks-IsConsistent ts now (recycle_task t now s) (recycle_task-IsConsistent t now s v h)
      d (recycle_all-IsListed t now s ts f hs)

pub recycle_expired-IsConsistent :
    (now : Time) (s : Store) → IsConsistent s → IsConsistent (recycle_expired now s)
unfolding recycle_expired
recycle_expired-IsConsistent now s v =
    recycle_tasks-IsConsistent _ now s v (Distinct-keep task_key _ s.tasks v.distinct) (
      All-keep (IsListed task_key s.tasks) _ s.tasks
        (Distinct-IsListed task_key s.tasks v.distinct))

recycle_task-keeps :
    (t : Task) (now : Time) (s : Store) (u : Task)
    → IsListed task_key s.tasks t
    → IsListed task_key s.tasks u
    → has_expired_lease u now ≡ false
    → IsListed task_key (recycle_task t now s).tasks u
recycle_task-keeps t now s u listed_t listed live = elim (Bool-cases (str_eq u.id t.id)) [
  | inl e ↦
      let same : t ≡ u = ground (arith, (str_eq_iff u.id t.id).0 e, listed_t, listed) in
      let live_t : has_expired_lease t now ≡ false = rw same live in
      unfold recycle_task in rw live_t listed
  | inr e ↦ recycle_task-IsListed t now s u e listed
]

recycle_tasks-keeps :
    (ts : List Task) (now : Time) (s : Store) (u : Task)
    → Distinct task_key ts
    → All (IsListed task_key s.tasks) ts
    → IsListed task_key s.tasks u
    → has_expired_lease u now ≡ false
    → IsListed task_key (recycle_tasks ts now s).tasks u
unfolding recycle_tasks
recycle_tasks-keeps [] now s u d h listed live = listed
recycle_tasks-keeps (t ∷ ts) now s u (f, d) (h, hs) listed live =
    recycle_tasks-keeps ts now (recycle_task t now s) u d (recycle_all-IsListed t now s ts f hs)
      (recycle_task-keeps t now s u h listed live) live

-- A task whose lease is not over stays as it is.
pub recycle_expired-keeps :
    (now : Time) (s : Store) (u : Task)
    → IsConsistent s
    → IsListed task_key s.tasks u
    → has_expired_lease u now ≡ false
    → IsListed task_key (recycle_expired now s).tasks u
unfolding recycle_expired
recycle_expired-keeps now s u v listed live =
    recycle_tasks-keeps _ now s u (Distinct-keep task_key _ s.tasks v.distinct)
      (All-keep (IsListed task_key s.tasks) _ s.tasks
        (Distinct-IsListed task_key s.tasks v.distinct))
      listed live
