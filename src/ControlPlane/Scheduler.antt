-- ===== src/ControlPlane/Scheduler.antt =====
-- The cron part of `runSchedulerCycle` (packages/control-plane-runtime/src/scheduler.ts): which
-- specifications are triggered in the minute, and the cursors that record it. The specifications
-- are an argument; the code takes those of `buildExampleCronSpecs`. `clock` is the time that
-- `nowIso` reads.
pub mod Cycle
pub mod Once
pub mod Minutes
mod Tests
use gana_v.Prelude.{
  String, Bool, true, false, Option, none, some, List, [], ◌∷◌, ◌++◌, if_some, get_or, ◌==◌,
  if◌then◌else◌,
}
use gana_v.Prelude.Texts.{join}
use gana_v.Storage.{get_by_id, save}
use gana_v.Queue.Task.{TaskKind, Time, Task}
use gana_v.Queue.Lifecycle.{Result, ok, err}
use gana_v.Queue.Store.{Platform}
use gana_v.Queue.Enqueue.{EnqueueInput}
use gana_v.Orchestration.Envelope.{WorkflowIntent, Envelope, create_task_envelope}
use gana_v.Orchestration.Cron.{matches_cron_spec}
use gana_v.Orchestration.Scheduler.{CronWorkflowSpec}
use gana_v.ControlPlane.Adapter.{TaskQueue}
use gana_v.ControlPlane.Research.{create_runtime_task_payload}

pub record CursorMetadata : Type 0 where
  pub intent : WorkflowIntent
  pub task_kind : TaskKind
  pub latest_manifest_id : String
  pub latest_task_id : String

-- `SchedulerCursorEntity`
pub record SchedulerCursor : Type 0 where
  pub id : String
  pub spec_id : String
  pub last_triggered_at : Option Time
  pub metadata : Option CursorMetadata
  pub created_at : Time
  pub updated_at : Time

abbrev pub cursor_key : SchedulerCursor → String
cursor_key c = c.id

abbrev pub scheduler_cursor_id : String → String
scheduler_cursor_id spec_id = join ("scheduler-cursor:" ∷ spec_id ∷ [])

-- The lists that the loop pushes to.
pub record CronProgress : Type 0 where
  pub cron_task_ids : List String
  pub triggered_kinds : List TaskKind
  pub triggered_spec_ids : List String
  pub cursor_states : List (String × Option Time)

abbrev pub no_progress : CronProgress
no_progress = record {
  cron_task_ids = [];
  triggered_kinds = [];
  triggered_spec_ids = [];
  cursor_states = [];
}

abbrev pub is_ingestion : TaskKind → Bool
is_ingestion TaskKind.fixture_ingestion = true
is_ingestion TaskKind.odds_ingestion = true
is_ingestion _ = false

-- `cursor?.lastTriggeredAt`, and its comparison with the minute
abbrev pub last_trigger : Option SchedulerCursor → Option Time
last_trigger none = none
last_trigger (some cursor) = cursor.last_triggered_at

abbrev pub is_minute : Option Time → Time → Bool
is_minute none minute = false
is_minute (some at) minute = at == minute

abbrev pub note_cursor : String → Option SchedulerCursor → CronProgress → CronProgress
note_cursor spec_id cursor g = record g {
  cursor_states = g.cursor_states ++ (spec_id, last_trigger cursor) ∷ [];
}

abbrev pub note_trigger : CronWorkflowSpec → String → CronProgress → CronProgress
note_trigger spec task_id g = record g {
  cron_task_ids = g.cron_task_ids ++ task_id ∷ [];
  triggered_kinds =
      if is_ingestion spec.task_kind
      then g.triggered_kinds ++ spec.task_kind ∷ []
      else g.triggered_kinds;
  triggered_spec_ids = g.triggered_spec_ids ++ spec.id ∷ [];
}

unfoldable pub create_scheduler_cursor :
    String → String → Option Time → Option CursorMetadata → Time → SchedulerCursor
create_scheduler_cursor id spec_id last_triggered_at metadata clock = record {
  id = id;
  spec_id = spec_id;
  last_triggered_at = last_triggered_at;
  metadata = metadata;
  created_at = clock;
  updated_at = clock;
}

unfoldable pub build_triggered_envelope : Platform → CronWorkflowSpec → Time → String → Envelope
build_triggered_envelope p spec scheduled_for manifest_id =
    create_task_envelope p spec.id
      (join (manifest_id ∷ ":" ∷ spec.id ∷ ":" ∷ p.to_iso_string scheduled_for ∷ [])) spec.intent
      (record {
        task_kind = spec.task_kind;
        payload = spec.create_payload scheduled_for;
        scheduled_for = scheduled_for;
        priority = some spec.priority;
        created_at = some scheduled_for;
        policy = spec.budget_policy;
        metadata = record {
          source = spec.source;
          labels = get_or spec.labels [];
          correlation_id = some manifest_id;
        };
      })
      scheduled_for

-- The argument of `enqueue` in `enqueueCronSpecTask`.
unfoldable pub cron_input : String → Envelope → EnqueueInput
unfolding create_runtime_task_payload
cron_input manifest_id envelope =
    let correlation_id = get_or envelope.metadata.correlation_id manifest_id in
    record {
      id = some envelope.id;
      kind = envelope.task_kind;
      payload = create_runtime_task_payload envelope.payload (record {
        manifest_id = manifest_id;
        workflow_id = envelope.workflow_id;
        trace_id = envelope.trace_id;
        correlation_id = correlation_id;
        source = envelope.metadata.source;
      });
      priority = some envelope.priority;
      manifest_id = some manifest_id;
      workflow_id = some envelope.workflow_id;
      trace_id = some envelope.trace_id;
      correlation_id = some correlation_id;
      source = some envelope.metadata.source;
      scheduled_for = some envelope.scheduled_for;
      max_attempts = some envelope.policy.max_attempts;
    }

-- What the loop works on, and where it stands after a round: a throw keeps what was pushed.
pub record Desk (q : TaskQueue) : Type 0 where
  pub queue : q.State
  pub cursors : List SchedulerCursor

pub record Round (q : TaskQueue) : Type 0 where
  pub result : Result (Unit {0})
  pub progress : CronProgress
  pub desk : Desk q

abbrev pub cursor_of : CronWorkflowSpec → List SchedulerCursor → Option SchedulerCursor
cursor_of spec cursors = get_by_id cursor_key (scheduler_cursor_id spec.id) cursors

abbrev pub triggered_cursor : Platform → Time → Time → String → CronWorkflowSpec → SchedulerCursor
triggered_cursor p minute clock manifest_id spec =
    create_scheduler_cursor (scheduler_cursor_id spec.id) spec.id (some minute)
      (some (record {
        intent = spec.intent;
        task_kind = spec.task_kind;
        latest_manifest_id = manifest_id;
        latest_task_id = (build_triggered_envelope p spec minute manifest_id).id;
      }))
      clock

module _ (p : Platform) (q : TaskQueue) (minute now clock : Time) (manifest_id : String) where
  abbrev pub after_enqueue :
      CronWorkflowSpec → CronProgress → List SchedulerCursor → Result Task × q.State → Round q
  after_enqueue spec g cursors (ok task, s) = record {
    result = ok tt;
    progress = note_trigger spec task.id g;
    desk = record {
      queue = s;
      cursors = save cursor_key (triggered_cursor p minute clock manifest_id spec) cursors;
    };
  }
  after_enqueue spec g cursors (err e, s) = record {
    result = err e;
    progress = g;
    desk = record { queue = s; cursors = cursors };
  }

  abbrev pub trigger : CronWorkflowSpec → CronProgress → Desk q → Round q
  trigger spec g d = after_enqueue spec g d.cursors (
      q.enqueue (cron_input manifest_id (build_triggered_envelope p spec minute manifest_id)) now
        d.queue)

  abbrev pub passed : CronProgress → Desk q → Round q
  passed g d = record { result = ok tt; progress = g; desk = d }

  -- One round; `none` where the cron expression does not return.
  abbrev pub visit : CronWorkflowSpec → Option Bool → CronProgress → Desk q → Option (Round q)
  visit spec none g d = none
  visit spec (some false) g d = some (passed (note_cursor spec.id (cursor_of spec d.cursors) g) d)
  visit spec (some true) g d =
      let noted = note_cursor spec.id (cursor_of spec d.cursors) g in
      if is_minute (last_trigger (cursor_of spec d.cursors)) minute
      then some (passed noted d)
      else some (trigger spec noted d)

  unfoldable pub run_cron_specs : List CronWorkflowSpec → CronProgress → Desk q → Option (Round q)
  unfolding matches_cron_spec cron_input build_triggered_envelope create_scheduler_cursor
  run_cron_specs [] g d = some (passed g d)
  run_cron_specs (spec ∷ specs) g d =
      if_some (visit spec (matches_cron_spec spec.cron minute) g d)
        λ r. elim r.result [ err e ↦ some r | ok _ ↦ run_cron_specs specs r.progress r.desk ]
