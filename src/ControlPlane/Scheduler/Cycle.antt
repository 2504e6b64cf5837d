-- ===== src/ControlPlane/Scheduler/Cycle.antt =====
-- `runSchedulerCycle` (packages/control-plane-runtime/src/scheduler.ts): the record of the cycle, the
-- cron part and the plan of research. `id` stands for `cycleId("scheduler", now)`, which is random;
-- logs and metrics, and the read model of the answer, are left out.
use gana_v.Prelude.{
  ℕ, ltb, String, Option, none, some, List, [], ◌∷◌, ◌++◌, map, get_or, if_some, if◌then◌else◌,
  keep, length,
}
use gana_v.Numbers.{Numbers}
use gana_v.Storage.{save}
use gana_v.Queue.Task.{TaskKind, Time, same_kind}
use gana_v.Queue.Lifecycle.{QueueError, Result, ok, err}
use gana_v.Queue.Store.{Platform}
use gana_v.Policy.Coverage.{Fixture}
use gana_v.Orchestration.Cron.{floor_to_minute}
use gana_v.Orchestration.Scheduler.{CronWorkflowSpec}
use gana_v.ControlPlane.Adapter.{TaskQueue}
use gana_v.ControlPlane.Messages.{error_message}
use gana_v.ControlPlane.Shared.{dedupe_strings}
use gana_v.ControlPlane.Cycle.{
  scheduler, running, succeeded, failed, CycleStage, StageStatus, stage_pending, stage_blocked,
  Stage, CycleSummary, AutomationCycle, cycle_key, create_automation_cycle, update_cycle,
}
use gana_v.ControlPlane.Research.{ResearchPlan, PlanningSnapshot, OddsClient, queue_eligible}
use gana_v.ControlPlane.Research.Queued.{no_plan}
use gana_v.ControlPlane.Scheduler.{
  SchedulerCursor, CronProgress, no_progress, Desk, Round, run_cron_specs,
}

-- The metadata of a cycle: when it starts, when it has succeeded, and when it has failed.
pub data SchedulerMetadata : Type 0 where
  requested : List String → List String → SchedulerMetadata
  planned : String → List String → ResearchPlan → CronProgress → SchedulerMetadata
  stopped : String → CronProgress → SchedulerMetadata

abbrev pub SchedulerRecord : Type 0
SchedulerRecord = AutomationCycle SchedulerMetadata

-- What a cycle leaves, and its record.
pub record SchedulerOutcome (q : TaskQueue) : Type 0 where
  pub cycle : SchedulerRecord
  pub desk : Desk q
  pub cycles : List SchedulerRecord

abbrev pub stage_of : CycleStage → StageStatus → List String → Stage
stage_of stage status task_ids = record {
  stage = stage;
  status = status;
  task_ids = task_ids;
  task_run_ids = [];
  retry_count = 0;
  stage_started_at = none;
  stage_completed_at = none;
  stage_error = none;
}

-- `createInitialStages`
abbrev pub initial_stages : List Stage
initial_stages =
    stage_of CycleStage.research stage_pending []
    ∷ stage_of CycleStage.prediction stage_blocked []
    ∷ stage_of CycleStage.validation stage_blocked []
    ∷ []

abbrev pub stages_after : List String → List Stage
stages_after task_ids =
    let status = if ltb 0 (length task_ids) then stage_pending else stage_blocked in
    stage_of CycleStage.research status task_ids
    ∷ stage_of CycleStage.prediction status []
    ∷ stage_of CycleStage.validation status []
    ∷ []

abbrev pub no_counts : List (String × ℕ)
no_counts =
    ("researchTaskCount", 0)
    ∷ ("predictionTaskCount", 0)
    ∷ ("parlayCount", 0)
    ∷ ("validationTaskCount", 0)
    ∷ []

abbrev pub count_kind : TaskKind → List TaskKind → ℕ
count_kind kind kinds = length (keep (λ k. same_kind k kind) kinds)

unfoldable pub scheduler_summary :
    List String → List String → List Stage → List (String × ℕ) → CycleSummary
scheduler_summary fixture_ids task_ids stages counts = record {
  source = "hermes-scheduler";
  fixture_ids = fixture_ids;
  task_ids = task_ids;
  stages = stages;
  counts = some counts;
}

unfoldable pub planned_summary : CronProgress → ResearchPlan → CycleSummary
unfolding scheduler_summary
planned_summary g plan =
    scheduler_summary plan.included_fixture_ids (g.cron_task_ids ++ plan.research_task_ids)
      (stages_after plan.research_task_ids)
      (("researchTaskCount", length plan.research_task_ids)
        ∷ ("predictionTaskCount", 0)
        ∷ ("parlayCount", 0)
        ∷ ("validationTaskCount", 0)
        ∷ ("fixtureIngestionTaskCount", count_kind TaskKind.fixture_ingestion g.triggered_kinds)
        ∷ ("oddsIngestionTaskCount", count_kind TaskKind.odds_ingestion g.triggered_kinds)
        ∷ [])

abbrev pub fixture_ids_of : List Fixture → List String
fixture_ids_of fixtures = map (λ f. f.id) fixtures

module _ (p : Platform) (now clock : Time) (id : String) where
  unfoldable pub started_cycle : String → List String → List String → SchedulerRecord
  unfolding create_automation_cycle scheduler_summary
  started_cycle lease_owner cron_specs fixture_ids =
      create_automation_cycle
        (record {
          id = id;
          kind = scheduler;
          status = running;
          lease_owner = lease_owner;
          started_at = now;
          finished_at = none;
          summary = some (scheduler_summary fixture_ids [] initial_stages no_counts);
          metadata = some (requested cron_specs fixture_ids);
          error = none;
          created_at = none;
          updated_at = none;
        })
        clock

  unfoldable pub succeeded_cycle :
      SchedulerRecord → List String → CronProgress → ResearchPlan → SchedulerRecord
  unfolding update_cycle planned_summary
  succeeded_cycle started fixture_ids g plan = update_cycle started (record {
    status = succeeded;
    finished_at = now;
    summary = some (planned_summary g plan);
    metadata = some (planned id fixture_ids plan g);
    error = none;
  })

  unfoldable pub failed_cycle :
      SchedulerRecord → List String → CronProgress → QueueError → SchedulerRecord
  unfolding update_cycle scheduler_summary error_message
  failed_cycle started fixture_ids g e = update_cycle started (record {
    status = failed;
    finished_at = now;
    summary = some (scheduler_summary fixture_ids g.cron_task_ids initial_stages no_counts);
    metadata = some (stopped id g);
    error = some (error_message p e);
  })

  module _ (q : TaskQueue) where
    abbrev pub saved_outcome :
        SchedulerRecord → q.State → List SchedulerCursor → List SchedulerRecord → SchedulerOutcome q
    saved_outcome cycle s cursors cycles = record {
      cycle = cycle;
      desk = record { queue = s; cursors = cursors };
      cycles = save cycle_key cycle cycles;
    }

    -- After the plan of research, and after the cron part.
    abbrev pub after_research :
        SchedulerRecord
        → List String
        → CronProgress
        → List SchedulerCursor
        → List SchedulerRecord
        → Result ResearchPlan × q.State
        → SchedulerOutcome q
    after_research started fixture_ids g cursors cycles (ok plan, s) =
        saved_outcome (succeeded_cycle started fixture_ids g plan) s cursors cycles
    after_research started fixture_ids g cursors cycles (err e, s) =
        saved_outcome (failed_cycle started fixture_ids g e) s cursors cycles

    module _ (N : Numbers) (client : OddsClient N) (snapshot : PlanningSnapshot N) where
      abbrev pub after_cron :
          SchedulerRecord → List String → List SchedulerRecord → Round q → SchedulerOutcome q
      after_cron started fixture_ids cycles r = elim r.result [
        | err e ↦
            saved_outcome (failed_cycle started fixture_ids r.progress e) r.desk.queue
              r.desk.cursors cycles
        | ok _ ↦
            after_research started fixture_ids r.progress r.desk.cursors cycles
              (queue_eligible N q client snapshot id now fixture_ids no_plan r.desk.queue)
      ]

      -- `cron_specs` is `summarizeCronSpecs` of the specifications; `none` where the
      -- expression of one does not return.
      unfoldable pub run_scheduler_cycle :
          List CronWorkflowSpec
          → List String
          → String
          → Option (List String)
          → Desk q
          → List SchedulerRecord
          → Option (SchedulerOutcome q)
      unfolding started_cycle succeeded_cycle failed_cycle run_cron_specs dedupe_strings
          queue_eligible save
      run_scheduler_cycle specs cron_specs lease_owner fixture_ids d cycles =
          let asked = dedupe_strings (get_or fixture_ids (fixture_ids_of snapshot.fixtures)) in
          let started = started_cycle lease_owner cron_specs asked in
          if_some (run_cron_specs p q (floor_to_minute now) now clock id specs no_progress d)
            λ r. some (after_cron started asked (save cycle_key started cycles) r)
