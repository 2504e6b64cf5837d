-- ===== src/ControlPlane/Dispatcher/Manifest.antt =====
-- What a dispatcher cycle does for a manifest, from the first claim to the last
-- (packages/control-plane-runtime/src/dispatcher.ts).
use gana_v.Prelude.{ℕ, String, ◌&&◌, Option, none, some, List, [], ◌∷◌, map, if◌then◌else◌, keep}
use gana_v.Queue.Task.{TaskStatus, TaskKind, Time, Task, same_kind, task_key}
use gana_v.Queue.Lifecycle.{Result, ok, err, property}
use gana_v.Queue.Store.{Platform}
use gana_v.ControlPlane.Adapter.{TaskQueue}
use gana_v.ControlPlane.Shared.{text_of}
use gana_v.ControlPlane.Dispatcher.Work.{output, thrown, ParlayOutcome, not_published, Workers}
use gana_v.ControlPlane.Dispatcher.Claims.{Execution, process_kinds}
use gana_v.ControlPlane.Dispatcher.{list_manifest_tasks}
use gana_v.ControlPlane.Dispatcher.Created.{
  ensure_manifest_prediction_tasks, ensure_manifest_validation_task,
}
use gana_v.ControlPlane.Dispatcher.Stages.{has_status}

-- What the work of a cycle has gathered.
pub record Dispatch : Type 0 where
  pub executions : List Execution
  pub parlay : ParlayOutcome
  pub successful_prediction_task_ids : List String

-- The fixture that a research execution names in its output.
abbrev pub researched_fixture : Execution → Option String
researched_fixture e = elim e.result [
  | thrown _ ↦ none
  | output done ↦
      if same_kind e.claim.task.kind TaskKind.research
      then text_of (property "fixtureId" done)
      else none
]

abbrev pub some_of {ℓ} : {A B : Type ℓ} → (A → Option B) → List A → List B
some_of f [] = []
some_of f (x ∷ xs) = elim (f x) [ none ↦ some_of f xs | some y ↦ y ∷ some_of f xs ]

abbrev pub of_kind : TaskKind → List Task → List Task
of_kind kind tasks = keep (λ t. same_kind t.kind kind) tasks

abbrev pub successful_predictions : List Task → List String
successful_predictions tasks =
    map task_key
      (keep (λ t. same_kind t.kind TaskKind.prediction && has_status TaskStatus.succeeded t) tasks)

abbrev pub first_kinds : List TaskKind
first_kinds =
    TaskKind.fixture_ingestion ∷ TaskKind.odds_ingestion ∷ TaskKind.sandbox_replay
    ∷ TaskKind.research ∷ []

-- One call after the other: an error ends the cycle.
abbrev pub bind_result : {S A B : Type 0} → Result A × S → (A → S → Result B × S) → Result B × S
bind_result (ok a, s) f = f a s
bind_result (err e, s) f = (err e, s)

module _ (p : Platform) (q : TaskQueue) (w : Workers q) (now : Time) where
  -- The publisher runs where a prediction has succeeded.
  abbrev pub publish_parlay : List String → q.State → ParlayOutcome × q.State
  publish_parlay [] s = (not_published, s)
  publish_parlay (id ∷ ids) s = w.publish (id ∷ ids) now s

  abbrev pub ensure_validation :
      String → List String → List Execution → q.State → Result (List Execution) × q.State
  ensure_validation manifest_id [] executions s = (ok executions, s)
  ensure_validation manifest_id (id ∷ ids) executions s =
      bind_result (ensure_manifest_validation_task p q now manifest_id (id ∷ ids) s)
        λ _ s'. (ok executions, s')

  module _ (max_claims : ℕ) (manifest_id : String) where
    abbrev pub gather :
        List String → ParlayOutcome → Result (List Execution) × q.State → Result Dispatch × q.State
    gather predictions parlay (ok executions, s) = (
      ok (record {
        executions = executions;
        parlay = parlay;
        successful_prediction_task_ids = predictions;
      }),
      s,
    )
    gather predictions parlay (err e, s) = (err e, s)

    abbrev pub dispatch_validations :
        List String → List Execution → ParlayOutcome × q.State → Result Dispatch × q.State
    dispatch_validations predictions executions (parlay, s) = gather predictions parlay (
        bind_result (ensure_validation manifest_id predictions executions s)
          (process_kinds p q w now manifest_id max_claims (TaskKind.validation ∷ [])))

    abbrev pub after_predictions : List Execution → q.State → Result Dispatch × q.State
    after_predictions executions s =
        let predictions = successful_predictions (list_manifest_tasks manifest_id (q.list s)) in
        dispatch_validations predictions executions (publish_parlay predictions s)

    abbrev pub after_first_kinds : List Execution → q.State → Result Dispatch × q.State
    after_first_kinds executions s =
        bind_result
          (ensure_manifest_prediction_tasks p q now manifest_id
            (some_of researched_fixture executions) s)
          λ _ s'.
            bind_result
              (process_kinds p q w now manifest_id max_claims (TaskKind.prediction ∷ []) executions
                s')
              after_predictions

    -- What the code does for a manifest, from the first claim to the last.
    unfoldable pub run_manifest : q.State → Result Dispatch × q.State
    unfolding process_kinds ensure_manifest_prediction_tasks ensure_manifest_validation_task
        list_manifest_tasks property
    run_manifest s =
        bind_result (process_kinds p q w now manifest_id max_claims first_kinds [] s)
          after_first_kinds
