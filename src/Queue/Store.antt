-- ===== src/Queue/Store.antt =====
-- What an operation of the queue (packages/queue-adapters/src/index.ts) works on: the two in-memory
-- repositories of a unit of work, and the platform's digests and texts.
-- `runInMemoryQueueMutation` lets one mutation of a unit of work run at a time, so an operation is
-- one step from a store to a result and a store. The store comes back beside an error too, with what
-- was saved before the throw.
use Prim.Native.String.{slice}
use gana_v.Prelude.{ℕ, String, ◌≡◌, ap, List, [], ◌∷◌, keep}
use gana_v.Prelude.Texts.{join}
use gana_v.Storage.{get_by_id, save}
use gana_v.Queue.Task.{TaskStatus, Value, Time, Task, TaskRun, same_status, task_key, run_key}
use gana_v.Queue.Lifecycle.{QueueError, Result, ok, err, ensure_task, ensure_task_run}

-- What the platform computes for an id: the digest of node:crypto, and the texts of times, numbers
-- and payloads. Nothing is assumed of it here.
pub record Platform : Type 0 where
  pub sha256_hex : String → String
  pub to_iso_string : Time → String
  pub number_to_string : ℕ → String
  pub json_stringify : Value → String

unfoldable pub compute_opaque_id : Platform → String → String → String
compute_opaque_id p prefix seed = join (prefix ∷ "_" ∷ slice (p.sha256_hex seed) 0 16 ∷ [])

-- The unit of work: the two repositories.
pub record Store : Type 0 where
  pub tasks : List Task
  pub task_runs : List TaskRun

abbrev pub Exec : Type 0 → Type 0
Exec A = Store → Result A × Store

infixl 10 ◌>>=◌
abbrev pub ◌>>=◌ : {A B : Type 0} → Exec A → (A → Exec B) → Exec B
◌>>=◌ m f s = let (r, s') = m s in elim r [ ok a ↦ f a s' | err e ↦ (err e, s') ]

abbrev pub pure : {A : Type 0} → A → Exec A
pure a s = (ok a, s)

abbrev pub lift : {A : Type 0} → Result A → Exec A
lift r s = (r, s)

-- `tasks.save` and `taskRuns.save`
unfoldable pub save_task : Task → Exec Task
save_task task s = (ok task, record s { tasks = save task_key task s.tasks })

unfoldable pub save_run : TaskRun → Exec TaskRun
save_run run s = (ok run, record s { task_runs = save run_key run s.task_runs })

-- `ensureTask(await tasks.getById(id), id)`, and so for runs
unfoldable pub require_task : String → Exec Task
unfolding ensure_task
require_task task_id s = (ensure_task (get_by_id task_key task_id s.tasks) task_id, s)

unfoldable pub require_run : String → Exec TaskRun
unfolding ensure_task_run
require_run run_id s = (ensure_task_run (get_by_id run_key run_id s.task_runs) run_id, s)

-- `findByStatus`
unfoldable pub find_by_status : TaskStatus → List Task → List Task
find_by_status status tasks = keep (λ task. same_status task.status status) tasks

-- How a bind goes on, and how it stops.
module _ {A B : Type 0} (m : Exec A) (f : A → Exec B) (s s' : Store) where
  pub bind-ok : (a : A) → m s ≡ (ok a, s') → (m >>= f) s ≡ f a s'
  bind-ok a e = ap (λ (r : Result A × Store). elim r.0 [ ok a ↦ f a r.1 | err e ↦ (err e, r.1) ]) e

  pub bind-err : (e : QueueError) → m s ≡ (err e, s') → (m >>= f) s ≡ (err e, s')
  bind-err x e = ap (λ (r : Result A × Store). elim r.0 [ ok a ↦ f a r.1 | err e ↦ (err e, r.1) ]) e

module _ {A B : Type 0} (r : Result A) (f : A → Exec B) (s : Store) where
  pub lift-ok : (a : A) → r ≡ ok a → (lift r >>= f) s ≡ f a s
  lift-ok a e = bind-ok (lift r) f s s a (ap (λ (q : Result A). (q, s)) e)

  pub lift-err : (e : QueueError) → r ≡ err e → (lift r >>= f) s ≡ (err e, s)
  lift-err x e = bind-err (lift r) f s s x (ap (λ (q : Result A). (q, s)) e)
