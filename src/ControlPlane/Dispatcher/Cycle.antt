-- ===== src/ControlPlane/Dispatcher/Cycle.antt =====
-- `runDispatcherCycle` (packages/control-plane-runtime/src/dispatcher.ts): the record of the cycle
-- and the work between its start and its end. `id` stands for `cycleId("dispatcher", now)`, which
-- is random; the connection, logs and metrics, and the read model of the answer, are left out.
use gana_v.Prelude.{
  ℕ, max, String, Option, none, some, List, [], ◌∷◌, ◌++◌, map, get_or, or_else, length,
}
use gana_v.Prelude.Texts.{truthy}
use gana_v.Storage.{save}
use gana_v.Queue.Task.{TaskKind, Time, Task, task_key}
use gana_v.Queue.Lifecycle.{Result, ok, err}
use gana_v.Queue.Store.{Platform}
use gana_v.ControlPlane.Adapter.{TaskQueue}
use gana_v.ControlPlane.Messages.{error_message}
use gana_v.ControlPlane.Shared.{dedupe_strings}
use gana_v.ControlPlane.Cycle.{
  dispatcher, running, succeeded, failed, CycleStatus, CycleStage, stage_succeeded, stage_failed,
  Stage, CycleSummary, AutomationCycle, cycle_key, create_automation_cycle, update_cycle,
}
use gana_v.ControlPlane.Dispatcher.Work.{ParlayOutcome, not_published, Workers}
use gana_v.ControlPlane.Dispatcher.{
  payload_fixture_id, list_manifest_tasks, find_manifest_to_dispatch,
}
use gana_v.ControlPlane.Dispatcher.Manifest.{Dispatch, some_of, of_kind, run_manifest}
use gana_v.ControlPlane.Dispatcher.Stages.{
  first_error, parlay_status, create_stage_snapshot, build_parlay_stage,
}

-- The metadata of a finished cycle.
pub data DispatcherMetadata : Type 0 where
  no_work : DispatcherMetadata
  dispatched : String → ParlayOutcome → List String → List String → DispatcherMetadata
  stopped : String → DispatcherMetadata

abbrev pub DispatcherRecord : Type 0
DispatcherRecord = AutomationCycle DispatcherMetadata

abbrev pub dispatcher_counts : ℕ → ℕ → ℕ → ℕ → List (String × ℕ)
dispatcher_counts research prediction parlay validation =
    ("researchTaskCount", research)
    ∷ ("predictionTaskCount", prediction)
    ∷ ("parlayCount", parlay)
    ∷ ("validationTaskCount", validation)
    ∷ []

abbrev pub dispatcher_summary :
    List String → List String → List Stage → Option (List (String × ℕ)) → CycleSummary
dispatcher_summary fixture_ids task_ids stages counts = record {
  source = "hermes-dispatcher";
  fixture_ids = fixture_ids;
  task_ids = task_ids;
  stages = stages;
  counts = counts;
}

-- `cycleStatus`, from `firstClaimError` and the parlay.
abbrev pub dispatcher_status : Option String → ParlayOutcome → CycleStatus
dispatcher_status (some error) parlay = failed
dispatcher_status none parlay = elim (parlay_status parlay) [
  | stage_failed ↦ failed
  | _ ↦ succeeded
]

abbrev pub cycle_status : Dispatch → CycleStatus
cycle_status d = dispatcher_status (first_error d.executions) d.parlay

abbrev pub parlay_count : ParlayOutcome → ℕ
parlay_count parlay = elim (parlay_status parlay) [ stage_succeeded ↦ 1 | _ ↦ 0 ]

module _ (p : Platform) (q : TaskQueue) (w : Workers q) (now : Time) where
  unfoldable pub final_record : DispatcherRecord → String → List Task → Dispatch → DispatcherRecord
  unfolding update_cycle create_stage_snapshot build_parlay_stage dedupe_strings payload_fixture_id
  final_record cycle manifest_id tasks d =
      let researches = of_kind TaskKind.research tasks in
      let predictions = of_kind TaskKind.prediction tasks in
      let validations = of_kind TaskKind.validation tasks in
      let replays = of_kind TaskKind.sandbox_replay tasks in
      update_cycle cycle (record {
        status = cycle_status d;
        finished_at = now;
        error = first_error d.executions;
        summary = some (
            dispatcher_summary (dedupe_strings (some_of payload_fixture_id tasks))
              (map task_key tasks)
              (create_stage_snapshot CycleStage.research researches d.executions
                ∷ create_stage_snapshot CycleStage.prediction predictions d.executions
                ∷ build_parlay_stage d.parlay
                ∷ create_stage_snapshot CycleStage.validation validations d.executions
                ∷ [])
              (some (
                dispatcher_counts (length researches) (length predictions) (parlay_count d.parlay)
                  (length validations)
                ++ ("sandboxReplayTaskCount", length replays) ∷ [])));
        metadata = some (
            dispatched manifest_id d.parlay (map task_key replays)
              d.successful_prediction_task_ids);
      })

  unfoldable pub idle_record : DispatcherRecord → DispatcherRecord
  unfolding update_cycle build_parlay_stage
  idle_record cycle = update_cycle cycle (record {
    status = succeeded;
    finished_at = now;
    error = none;
    summary = some (
        dispatcher_summary [] [] (build_parlay_stage not_published ∷ [])
          (some (dispatcher_counts 0 0 0 0)));
    metadata = some no_work;
  })

  unfoldable pub stopped_record : DispatcherRecord → String → DispatcherRecord
  unfolding update_cycle
  stopped_record cycle message = update_cycle cycle (record {
    status = failed;
    finished_at = now;
    error = some message;
    summary = some (dispatcher_summary [] [] [] (some (dispatcher_counts 0 0 0 0)));
    metadata = some (stopped message);
  })

  abbrev pub after_dispatch :
      DispatcherRecord → String → Result Dispatch × q.State → DispatcherRecord × q.State
  after_dispatch cycle manifest_id (ok d, s) =
      (final_record cycle manifest_id (list_manifest_tasks manifest_id (q.list s)) d, s)
  after_dispatch cycle manifest_id (err e, s) = (stopped_record cycle (error_message p e), s)

  abbrev pub dispatch_manifest :
      DispatcherRecord → ℕ → Option String → q.State → DispatcherRecord × q.State
  dispatch_manifest cycle max_claims none s = (idle_record cycle, s)
  dispatch_manifest cycle max_claims (some manifest_id) s =
      after_dispatch cycle manifest_id (run_manifest p q w now max_claims manifest_id s)

  -- The manifest of the options, or that of the first ready task.
  unfoldable pub manifest_to_dispatch : Option String → q.State → Option String
  unfolding find_manifest_to_dispatch
  manifest_to_dispatch given s = truthy (or_else given (find_manifest_to_dispatch now (q.list s)))

  unfoldable pub dispatcher_started : String → String → Time → DispatcherRecord
  unfolding create_automation_cycle
  dispatcher_started id lease_owner clock =
      create_automation_cycle
        (record {
          id = id;
          kind = dispatcher;
          status = running;
          lease_owner = lease_owner;
          started_at = now;
          finished_at = none;
          summary = some (dispatcher_summary [] [] [] none);
          metadata = none;
          error = none;
          created_at = none;
          updated_at = none;
        })
        clock

  -- The record of the cycle, the queue that it leaves, and the records of all cycles.
  unfoldable pub run_dispatcher_cycle :
      String
      → String
      → Time
      → Option String
      → Option ℕ
      → q.State
      → List DispatcherRecord
      → DispatcherRecord × q.State × List DispatcherRecord
  unfolding dispatcher_started manifest_to_dispatch final_record idle_record stopped_record
      run_manifest save error_message
  run_dispatcher_cycle id lease_owner clock given max_claims s cycles =
      let started = dispatcher_started id lease_owner clock in
      let (finished, s') =
        dispatch_manifest started (max 1 (get_or max_claims 5)) (manifest_to_dispatch given s) s in
      (finished, s', save cycle_key finished (save cycle_key started cycles))
