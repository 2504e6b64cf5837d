-- ===== src/ControlPlane/Dispatcher/Created.antt =====
-- The tasks that a dispatcher cycle creates (packages/control-plane-runtime/src/dispatcher.ts).
use gana_v.Prelude.{String, Bool, ◌&&◌, none, some, List, [], ◌∷◌, ◌++◌, if◌then◌else◌, any, first}
use gana_v.Queue.Task.{TaskKind, Time, Task, same_kind}
use gana_v.Queue.Lifecycle.{Result, ok, err}
use gana_v.Queue.Store.{Platform}
use gana_v.ControlPlane.Adapter.{TaskQueue}
use gana_v.ControlPlane.Shared.{dedupe_strings}
use gana_v.ControlPlane.Dispatcher.{
  payload_fixture_id, is_text, prediction_input, validation_input, list_manifest_tasks,
}

module _ (p : Platform) (q : TaskQueue) (now : Time) where
  -- `ensureManifestPredictionTasks`: the tasks that exist are read before the loop.
  abbrev pub predicts : String → Task → Bool
  predicts fixture_id task =
      same_kind task.kind TaskKind.prediction && is_text (payload_fixture_id task) fixture_id

  abbrev pub after_created : List String → Result Task × q.State → Result (List String) × q.State
  after_created created (ok task, s) = (ok (created ++ task.id ∷ []), s)
  after_created created (err e, s) = (err e, s)

  abbrev pub ensure_one :
      String → List Task → String → List String → q.State → Result (List String) × q.State
  ensure_one manifest_id existing fixture_id created s =
      if any (predicts fixture_id) existing
      then (ok created, s)
      else after_created created (q.enqueue (prediction_input manifest_id fixture_id now) now s)

  unfoldable pub ensure_predictions :
      String → List Task → List String → List String → q.State → Result (List String) × q.State
  unfolding payload_fixture_id prediction_input
  ensure_predictions manifest_id existing [] created s = (ok created, s)
  ensure_predictions manifest_id existing (id ∷ ids) created s =
      let (r, s') = ensure_one manifest_id existing id created s in
      elim r [ err e ↦ (err e, s') | ok more ↦ ensure_predictions manifest_id existing ids more s' ]

  unfoldable pub ensure_manifest_prediction_tasks :
      String → List String → q.State → Result (List String) × q.State
  unfolding list_manifest_tasks ensure_predictions dedupe_strings
  ensure_manifest_prediction_tasks manifest_id fixture_ids s =
      ensure_predictions manifest_id (list_manifest_tasks manifest_id (q.list s))
        (dedupe_strings fixture_ids) [] s

  abbrev pub after_validation : Result Task × q.State → Result String × q.State
  after_validation (ok task, s) = (ok task.id, s)
  after_validation (err e, s) = (err e, s)

  unfoldable pub ensure_manifest_validation_task :
      String → List String → q.State → Result String × q.State
  unfolding list_manifest_tasks validation_input
  ensure_manifest_validation_task manifest_id prediction_task_ids s =
      elim (first (λ t. same_kind t.kind TaskKind.validation)
        (list_manifest_tasks manifest_id (q.list s))) [
          | some existing ↦ (ok existing.id, s)
          | none ↦
              after_validation
                (q.enqueue (validation_input p manifest_id prediction_task_ids now) now s)
        ]
