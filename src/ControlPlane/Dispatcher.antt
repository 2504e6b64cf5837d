-- ===== src/ControlPlane/Dispatcher.antt =====
-- The tasks of a dispatcher cycle: which one is next, and what is enqueued
-- (packages/control-plane-runtime/src/dispatcher.ts).
pub mod Work
pub mod Claims
pub mod Created
pub mod Stages
pub mod Manifest
pub mod Cycle
pub mod Returned
pub mod Bounds
pub mod Keeps
pub mod Leaves
pub mod Returns
pub mod Endings
pub mod Answers
mod Tests
use gana_v.Prelude.{
  ℕ, String, Bool, true, false, ◌&&◌, Option, none, some, List, [], ◌∷◌, ◌++◌, map, get_or, or_else,
  ◌==◌, leb, ltb, if◌then◌else◌, any, first, head, keep, length, is_some,
}
use gana_v.Prelude.Texts.{str_eq, truthy, join}
use gana_v.Prelude.Sort.{sort}
use gana_v.Queue.Task.{
  TaskStatus, TaskKind, Value, Items, Payload, Time, Task, Claim, same_status, same_kind,
}
use gana_v.Queue.Lifecycle.{QueueError, Result, ok, err, as_optional_string, property}
use gana_v.Queue.Store.{Platform}
use gana_v.Queue.Select.{is_task_ready}
use gana_v.Queue.Enqueue.{EnqueueInput, kind_name}
use gana_v.ControlPlane.Adapter.{TaskQueue}
use gana_v.ControlPlane.Messages.{error_message}
use gana_v.ControlPlane.Shared.{dedupe_strings}
use gana_v.ControlPlane.Research.{create_runtime_task_payload}

abbrev pub ready_at : Task → Time
ready_at task = get_or task.scheduled_for task.created_at

-- `compareQueuedReadyTasks(left, right) < 0`
unfoldable pub ready_before : Task → Task → Bool
ready_before left right =
    if ready_at left == ready_at right
    then if left.priority == right.priority
      then ltb left.created_at right.created_at
      else ltb right.priority left.priority
    else ltb (ready_at left) (ready_at right)

abbrev pub payload_text : String → Task → Option String
payload_text key task = as_optional_string (property key task.payload)

unfoldable pub payload_fixture_id : Task → Option String
unfolding as_optional_string property
payload_fixture_id task = payload_text "fixtureId" task

unfoldable pub manifest_of : Task → Option String
unfolding as_optional_string property
manifest_of task = or_else task.manifest_id (payload_text "manifestId" task)

abbrev pub is_text : Option String → String → Bool
is_text none t = false
is_text (some s) t = str_eq s t

abbrev pub prediction_task_id : String → String → String
prediction_task_id manifest_id fixture_id =
    join ("dispatcher:" ∷ manifest_id ∷ ":prediction:" ∷ fixture_id ∷ [])

abbrev pub validation_task_id : String → String
validation_task_id manifest_id = join ("dispatcher:" ∷ manifest_id ∷ ":validation" ∷ [])

-- The input of `enqueue` for a task of the dispatcher.
abbrev pub manifest_input :
    TaskKind → String → String → String → String → Payload → ℕ → Time → EnqueueInput
manifest_input kind id manifest_id workflow_id trace_id payload priority now = record {
  id = some id;
  kind = kind;
  payload = payload;
  priority = some priority;
  manifest_id = some manifest_id;
  workflow_id = some workflow_id;
  trace_id = some trace_id;
  correlation_id = some manifest_id;
  source = some "hermes-dispatcher";
  scheduled_for = some now;
  max_attempts = none;
}

abbrev pub manifest_payload : Payload → String → String → String → Payload
manifest_payload payload manifest_id workflow_id trace_id =
    create_runtime_task_payload payload (record {
      manifest_id = manifest_id;
      workflow_id = workflow_id;
      trace_id = trace_id;
      correlation_id = manifest_id;
      source = "hermes-dispatcher";
    })

unfoldable pub prediction_input : String → String → Time → EnqueueInput
unfolding create_runtime_task_payload
prediction_input manifest_id fixture_id now =
    let workflow_id = join (manifest_id ∷ ":prediction" ∷ []) in
    let trace_id = join (workflow_id ∷ ":" ∷ fixture_id ∷ []) in
    manifest_input TaskKind.prediction (prediction_task_id manifest_id fixture_id) manifest_id
      workflow_id trace_id
      (manifest_payload
        (("fixtureId", Value.text fixture_id) ∷ ("step", Value.text "automation-prediction") ∷ [])
        manifest_id workflow_id trace_id)
      50 now

abbrev pub items_of : List String → Items
items_of [] = Items.no_items
items_of (s ∷ ss) = Items.item (Value.text s) (items_of ss)

unfoldable pub validation_input : Platform → String → List String → Time → EnqueueInput
unfolding create_runtime_task_payload
validation_input p manifest_id prediction_task_ids now =
    let workflow_id = join (manifest_id ∷ ":validation" ∷ []) in
    let trace_id = join (workflow_id ∷ ":" ∷ p.to_iso_string now ∷ []) in
    manifest_input TaskKind.validation (validation_task_id manifest_id) manifest_id workflow_id
      trace_id
      (manifest_payload
        (("executedAt", Value.text (p.to_iso_string now))
          ∷ ("predictionTaskIds", Value.array (items_of prediction_task_ids))
          ∷ [])
        manifest_id workflow_id trace_id)
      10 now

abbrev pub is_queued_for : String → TaskKind → Time → Task → Bool
is_queued_for manifest_id kind now task =
    is_text (manifest_of task) manifest_id
    && same_kind task.kind kind
    && same_status task.status TaskStatus.queued
    && is_task_ready task now

unfoldable pub list_queued_manifest_tasks : String → TaskKind → Time → List Task → List Task
unfolding manifest_of ready_before is_task_ready sort
list_queued_manifest_tasks manifest_id kind now tasks =
    sort ready_before (keep (is_queued_for manifest_id kind now) tasks)

unfoldable pub list_manifest_tasks : String → List Task → List Task
unfolding manifest_of
list_manifest_tasks manifest_id tasks = keep (λ t. is_text (manifest_of t) manifest_id) tasks

unfoldable pub find_manifest_to_dispatch : Time → List Task → Option String
unfolding manifest_of ready_before is_task_ready sort
find_manifest_to_dispatch now tasks =
    elim (first (λ t. is_some (truthy (manifest_of t)))
      (sort ready_before
        (keep (λ t. same_status t.status TaskStatus.queued && is_task_ready t now) tasks))) [
          | none ↦ none
          | some candidate ↦ manifest_of candidate
        ]
