-- ===== src/Queue/Owners.antt =====
-- Who holds a lease (packages/queue-adapters/src/index.ts): a task carries lease fields exactly while
-- it runs, and a run that runs is the active run of a running task. What a save does to the second.
use gana_v.Prelude.{
  String, ◌≡◌, ◌≢◌, refl, sym, ◌∙◌, inl, inr, true, false, Option, none, some, List, [], ◌∷◌, arith,
  Bool-cases, is_some, last, ◌++◌,
}
use gana_v.Prelude.Texts.{str_eq, str_eq_iff, truthy}
use gana_v.Storage.{get_by_id, save}
use gana_v.Storage.Laws.{get_by_id-save}
use gana_v.Queue.Task.{TaskStatus, RunStatus, Task, TaskRun, same_status, task_key, run_key}

-- The lease fields agree with the status: a running task has an owner, an expiry, an active run and
-- an attempt, and any other task has none of the first three.
pub record IsLeased (t : Task) : Type 0 where
  pub leased :
      same_status t.status TaskStatus.running ≡ true
      → (is_some (truthy t.lease_owner) ≡ true)
        × (is_some t.lease_expires_at ≡ true)
        × (is_some (truthy t.active_task_run_id) ≡ true)
        × (is_some (last t.attempts) ≡ true)
  pub free :
      same_status t.status TaskStatus.running ≡ false
      → (t.lease_owner ≡ none) × (t.lease_expires_at ≡ none) × (t.active_task_run_id ≡ none)

pub last-concat {ℓ} : {A : Type ℓ} (xs : List A) (x : A) → last (xs ++ x ∷ []) ≡ some x
last-concat [] x = refl
last-concat (y ∷ []) x = refl
last-concat (y ∷ z ∷ zs) x = last-concat (z ∷ zs) x

pub truthy-some : (o : Option String) (s : String) → truthy o ≡ some s → o ≡ some s
truthy-some o s h = ground arith

-- The task `t` runs under the run `run_id`.
abbrev pub RunsUnder : String → Task → Type 0
RunsUnder run_id t = (t.status ≡ TaskStatus.running) × (t.active_task_run_id ≡ some run_id)

-- Each run that runs is the active run of its task, which runs.
abbrev pub IsOwned : List Task → List TaskRun → Type 0
IsOwned tasks runs =
    (k : String) (r : TaskRun)
    → get_by_id run_key k runs ≡ some r
    → r.status ≡ RunStatus.running
    → (t : Task) × (get_by_id task_key r.task_id tasks ≡ some t) × RunsUnder k t

-- No run that runs has the id `k`.
abbrev pub IsClosed : String → List TaskRun → Type 0
IsClosed k runs = (r : TaskRun) → get_by_id run_key k runs ≡ some r → r.status ≢ RunStatus.running

module _ (tasks : List Task) (runs : List TaskRun) (owned : IsOwned tasks runs) where
  -- A task that does not run may be replaced.
  pub IsOwned-save_idle :
      (t : Task)
      → ((old : Task) → get_by_id task_key t.id tasks ≡ some old → old.status ≢ TaskStatus.running)
      → IsOwned (save task_key t tasks) runs
  IsOwned-save_idle t idle k r found running =
      let (u, listed, under) = owned k r found running in
      elim (Bool-cases (str_eq t.id r.task_id)) [
        | inl e ↦ absurd (idle u (rw ((str_eq_iff t.id r.task_id).0 e) listed) under.0)
        | inr e ↦ (u, rw (get_by_id-save task_key t r.task_id tasks, e) listed, under)
      ]

  -- A running task may be replaced once its active run is closed and no other run has changed.
  pub IsOwned-close :
      (t old : Task) (run_id : String) (runs' : List TaskRun)
      → get_by_id task_key t.id tasks ≡ some old
      → old.active_task_run_id ≡ some run_id
      → IsClosed run_id runs'
      → ((k : String)
          → str_eq run_id k ≡ false
          → get_by_id run_key k runs' ≡ get_by_id run_key k runs)
      → IsOwned (save task_key t tasks) runs'
  IsOwned-close t old run_id runs' listed_old active closed others k r found running =
      elim (Bool-cases (str_eq run_id k)) [
        | inl e ↦ absurd (closed r (rw ((str_eq_iff run_id k).0 e) found) running)
        | inr e ↦
            let (u, listed, under) = owned k r (sym (others k e) ∙ found) running in
            elim (Bool-cases (str_eq t.id r.task_id)) [
              | inl f ↦ absurd (apart u listed under e ((str_eq_iff t.id r.task_id).0 f))
              | inr f ↦ (u, rw (get_by_id-save task_key t r.task_id tasks, f) listed, under)
            ]
      ]
    where
      apart :
          (u : Task)
          → get_by_id task_key r.task_id tasks ≡ some u
          → RunsUnder k u
          → str_eq run_id k ≡ false
          → t.id ≡ r.task_id
          → ⊥
      apart u listed under e p = ground (arith, str_eq_iff run_id k, listed_old, listed, p)

  -- A task that was idle starts under a run that is its own.
  pub IsOwned-start :
      (t : Task) (run : TaskRun)
      → ((old : Task) → get_by_id task_key t.id tasks ≡ some old → old.status ≢ TaskStatus.running)
      → run.task_id ≡ t.id
      → RunsUnder run.id t
      → IsOwned (save task_key t tasks) (save run_key run runs)
  IsOwned-start t run idle own under k r found running = elim (Bool-cases (str_eq run.id k)) [
    | inl e ↦
        let same : run ≡ r = ground (arith, get_by_id-save run_key run k runs) in
        (
          t,
          ground (
            arith,
            get_by_id-save task_key t r.task_id tasks,
            str_eq_iff t.id r.task_id,
            same,
            own,
          ),
          (under.0, ground (arith, str_eq_iff run.id k)),
        )
    | inr e ↦
        IsOwned-save_idle t idle k r (ground (arith, get_by_id-save run_key run k runs)) running
  ]

  -- A running task keeps its run through a renewal.
  pub IsOwned-renew :
      (t old : Task) (run : TaskRun)
      → get_by_id task_key t.id tasks ≡ some old
      → old.active_task_run_id ≡ some run.id
      → run.task_id ≡ t.id
      → RunsUnder run.id t
      → IsOwned (save task_key t tasks) (save run_key run runs)
  IsOwned-renew t old run listed_old active own under k r found running =
      elim (Bool-cases (str_eq run.id k)) [
        | inl e ↦
            let same : run ≡ r = ground (arith, get_by_id-save run_key run k runs) in
            (
              t,
              ground (
                arith,
                get_by_id-save task_key t r.task_id tasks,
                str_eq_iff t.id r.task_id,
                same,
                own,
              ),
              (under.0, ground (arith, str_eq_iff run.id k)),
            )
        | inr e ↦
            let (u, listed, mine) =
              owned k r (ground (arith, get_by_id-save run_key run k runs)) running in
            elim (Bool-cases (str_eq t.id r.task_id)) [
              | inl f ↦ absurd (
                  ground (
                    arith,
                    str_eq_iff run.id k,
                    str_eq_iff t.id r.task_id,
                    listed_old,
                    listed,
                    mine,
                    active,
                  ))
              | inr f ↦ (u, rw (get_by_id-save task_key t r.task_id tasks, f) listed, mine)
            ]
      ]
