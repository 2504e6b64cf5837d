-- ===== src/Mappers/Tests.antt =====
-- Tests of the mappers, and a task and a run at which the theorems of `Saved` apply
-- (packages/storage-adapters/src/prisma/mappers.ts).
use gana_v.Prelude.{List, none, some, [], ◌∷◌, ◌≡◌, refl, map}
use gana_v.Queue.Task.{TaskStatus, TaskKind, RunStatus, Value, TaskRun}
use gana_v.Queue.Store.{Platform}
use gana_v.Domain.Task.{TaskInput, create_task}
use gana_v.Mappers.Names.{replace_all, task_kind_to_prisma, task_kind_to_domain}
use gana_v.Mappers.Rows.{
  TaskRunRow, prisma_saved, created_runs, task_attempt_to_task_run_input, task_run_to_task_attempt,
  task_run_record_to_domain, task_run_domain_to_create_input,
}
use gana_v.Mappers.Saved.{saved_task, task_run-read}

abbrev platform : Platform
platform = record {
  sha256_hex = λ s. s;
  to_iso_string = λ t. "T";
  number_to_string = λ n. "n";
  json_stringify = λ v. "json";
}

abbrev failed_once : TaskInput
failed_once = record {
  id = "tsk_1";
  kind = TaskKind.odds_ingestion;
  status = TaskStatus.queued;
  trigger_kind = none;
  priority = 50;
  dedupe_key = some "";
  manifest_id = none;
  workflow_id = none;
  trace_id = none;
  correlation_id = none;
  source = none;
  payload = ("source", Value.text "cron") ∷ [];
  attempts = some (
      record { started_at = 10; finished_at = some 20; error = some "no odds" }
      ∷ record { started_at = 30; finished_at = none; error = none }
      ∷ []);
  scheduled_for = some 30;
  max_attempts = none;
  last_error_message = some "no odds";
  lease_owner = none;
  lease_expires_at = none;
  claimed_at = none;
  last_heartbeat_at = none;
  active_task_run_id = none;
  created_at = some 5;
  updated_at = none;
}

test-prisma_kind : task_kind_to_prisma TaskKind.odds_ingestion ≡ "odds_ingestion"
unfolding task_kind_to_prisma replace_all
test-prisma_kind = refl

test-no_kind : task_kind_to_domain "no_kind" ≡ none
unfolding task_kind_to_domain replace_all
test-no_kind = refl

test-statuses :
    map (λ r. r.status) (created_runs platform "tsk_1" 0 (create_task failed_once 40).attempts)
    ≡ RunStatus.failed ∷ RunStatus.running ∷ []
unfolding created_runs task_attempt_to_task_run_input create_task
test-statuses = refl

test-numbers :
    map
      (λ r. r.attempt_number)
      (created_runs platform "tsk_1" 0 (create_task failed_once 40).attempts)
    ≡ 1 ∷ 2 ∷ []
unfolding created_runs task_attempt_to_task_run_input create_task
test-numbers = refl

saved_task_example :
    (prisma_saved platform (create_task failed_once 40) none ≡ some (create_task failed_once 40))
    × ((rows : List TaskRunRow)
        → prisma_saved platform (create_task failed_once 40) (some rows)
          ≡ some (record (create_task failed_once 40) {
            attempts = map task_run_to_task_attempt rows;
          }))
unfolding create_task
saved_task_example = saved_task platform failed_once 40 (refl, (refl, tt))

abbrev finished_run : TaskRun
finished_run = record {
  id = "trn_1";
  task_id = "tsk_1";
  attempt_number = 1;
  status = RunStatus.failed;
  worker_name = some "";
  started_at = 10;
  finished_at = some 20;
  error = some "no odds";
  result = some (("rows", Value.number 0) ∷ []);
  retry_scheduled_for = some 30;
  created_at = 10;
  updated_at = 20;
}

task_run-read_example :
    task_run_record_to_domain (task_run_domain_to_create_input finished_run)
    ≡ record finished_run { worker_name = none; error = some "no odds" }
task_run-read_example = task_run-read finished_run
