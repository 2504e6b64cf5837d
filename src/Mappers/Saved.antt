-- ===== src/Mappers/Saved.antt =====
-- What is saved to the database and read back (packages/storage-adapters/src/prisma/mappers.ts).
use mathlib.Core.Option.{map as map_some}
use gana_v.Prelude.{ℕ, String, Option, none, some, List, [], ◌∷◌, ◌+◌, ◌≡◌, refl, ap, ◌∙◌, map, All}
use gana_v.Prelude.Texts.{truthy, truthy_twice}
use gana_v.Queue.Task.{Payload, Time, Attempt, Task, TaskRun}
use gana_v.Queue.Enqueue.{members_of}
use gana_v.Queue.Store.{Platform}
use gana_v.Domain.Task.{TaskInput, create_task}
use gana_v.Mappers.Names.{task_kind-read}
use gana_v.Mappers.Rows.{
  TaskRunRow, as_record, payload_of, task_run_to_task_attempt, task_attempt_to_task_run_input,
  task_run_record_to_domain, task_run_domain_to_create_input, task_record_to_domain,
  task_domain_to_create_input, task_of, created_runs, prisma_saved, optional_record, json_or_null,
}

payload_of-members : (payload : Payload) → payload_of (members_of payload) ≡ payload
payload_of-members [] = refl
payload_of-members ((k, v) ∷ rest) = ap (λ p. (k, v) ∷ p) (payload_of-members rest)

result-read : (o : Option Payload) → optional_record (json_or_null o) ≡ o
unfolding as_record
result-read none = refl
result-read (some payload) = ap some (payload_of-members payload)

-- A run is read back as it was saved, but that an empty error or worker's name is then missing.
pub task_run-read :
    (run : TaskRun)
    → task_run_record_to_domain (task_run_domain_to_create_input run)
      ≡ record run { worker_name = truthy run.worker_name; error = truthy run.error }
unfolding task_run_record_to_domain task_run_domain_to_create_input as_record
task_run-read run =
    ap
      (λ r. record run {
        worker_name = truthy run.worker_name;
        error = truthy run.error;
        result = r;
      })
      (result-read run.result)

-- An attempt whose error is not an empty text.
abbrev pub IsPlain : Attempt → Type 0
IsPlain attempt = truthy attempt.error ≡ attempt.error

attempts-read :
    (p : Platform) (id : String) (index : ℕ) (attempts : List Attempt)
    → All IsPlain attempts
    → map task_run_to_task_attempt (created_runs p id index attempts) ≡ attempts
unfolding task_run_to_task_attempt created_runs task_attempt_to_task_run_input
attempts-read p id index [] plain = refl
attempts-read p id index (attempt ∷ attempts) (plain, others) =
    ap
      (λ e.
        record attempt { error = e }
        ∷ map task_run_to_task_attempt (created_runs p id (index + 1) attempts))
      plain
    ∙ ap (λ rest. attempt ∷ rest) (attempts-read p id (index + 1) attempts others)

task-read :
    (task : Task) (rows : List TaskRunRow)
    → task_record_to_domain (task_domain_to_create_input task) rows
      ≡ some (record task {
        dedupe_key = truthy task.dedupe_key;
        manifest_id = truthy task.manifest_id;
        workflow_id = truthy task.workflow_id;
        trace_id = truthy task.trace_id;
        correlation_id = truthy task.correlation_id;
        source = truthy task.source;
        attempts = map task_run_to_task_attempt rows;
        last_error_message = truthy task.last_error_message;
        lease_owner = truthy task.lease_owner;
        active_task_run_id = truthy task.active_task_run_id;
      })
unfolding task_record_to_domain task_domain_to_create_input as_record task_of
task-read task rows =
    ap (map_some (task_of (task_domain_to_create_input task) rows)) (task_kind-read task.kind)
    ∙ rw (payload_of-members task.payload) refl

created-read :
    (input : TaskInput) (now : Time) (rows : List TaskRunRow)
    → task_record_to_domain (task_domain_to_create_input (create_task input now)) rows
      ≡ some (record (create_task input now) { attempts = map task_run_to_task_attempt rows })
unfolding create_task
created-read input now rows = task-read (create_task input now) rows ∙ simp truthy_twice

-- A created task whose attempts have no empty error is read back as it was saved, where no row had
-- its id. Where one had, the task that the save returns has the attempts of the runs that the
-- database holds, and all else as it was saved.
pub saved_task :
    (p : Platform) (input : TaskInput) (now : Time)
    → All IsPlain (create_task input now).attempts
    → (prisma_saved p (create_task input now) none ≡ some (create_task input now))
      × ((rows : List TaskRunRow)
          → prisma_saved p (create_task input now) (some rows)
            ≡ some
                (record (create_task input now) { attempts = map task_run_to_task_attempt rows }))
unfolding prisma_saved
saved_task p input now plain =
    let task = create_task input now in
    (
      created-read input now (created_runs p task.id 0 task.attempts)
          ∙ ap (λ read. some (record task { attempts = read }))
              (attempts-read p task.id 0 task.attempts plain),
      created-read input now,
    )
