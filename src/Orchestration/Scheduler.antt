-- ===== src/Orchestration/Scheduler.antt =====
-- `SimpleCronScheduler` (packages/orchestration-sdk/src/index.ts). Its specifications and its state
-- go in and come out; the state is kept in a list under the ids of the specifications. `clock` is
-- the time that the creation of envelopes reads, which may be later than the time of the tick.
use gana_v.Prelude.{
  ℕ, String, Bool, true, false, Option, none, some, List, [], ◌∷◌, ◌++◌, if_some, get_or, length,
  ◌==◌, if◌then◌else◌,
}
use gana_v.Prelude.Texts.{join}
use gana_v.Storage.{get_by_id, save}
use gana_v.Queue.Task.{TaskKind, Payload, Time}
use gana_v.Queue.Store.{Platform}
use gana_v.Orchestration.Budget.{PartialPolicy}
use gana_v.Orchestration.Envelope.{WorkflowIntent, Envelope, create_task_envelope}
use gana_v.Orchestration.Dispatch.{DispatchQueue, enqueue}
use gana_v.Orchestration.Cron.{CronSpec, matches_cron_spec, floor_to_minute}

pub record CronWorkflowSpec : Type 0 where
  pub id : String
  pub cron : CronSpec
  pub intent : WorkflowIntent
  pub task_kind : TaskKind
  pub priority : ℕ
  pub source : String
  pub labels : Option (List String)
  pub create_payload : Time → Payload
  pub budget_policy : Option PartialPolicy

-- `SchedulerJobState` under the id of its specification
pub record JobState : Type 0 where
  pub spec_id : String
  pub last_triggered_at : Option Time

abbrev pub job_key : JobState → String
job_key j = j.spec_id

pub record SchedulerTick : Type 0 where
  pub triggered_at : Time
  pub due_job_count : ℕ
  pub enqueued_task_ids : List String

-- What a tick changes: the ids that it has enqueued so far, the states of the jobs and the queue.
pub record Ticking : Type 0 where
  pub enqueued : List String
  pub jobs : List JobState
  pub queue : DispatchQueue

-- `state?.lastTriggeredAt === currentMinute.toISOString()`
abbrev pub triggered_at : Option JobState → Time → Bool
triggered_at none minute = false
triggered_at (some job) minute = elim job.last_triggered_at [
  | none ↦ false
  | some at ↦ at == minute
]

unfoldable pub job_envelope : Platform → CronWorkflowSpec → Time → Time → Envelope
job_envelope p spec minute clock =
    create_task_envelope p spec.id (join (spec.id ∷ ":" ∷ p.to_iso_string minute ∷ [])) spec.intent
      (record {
        task_kind = spec.task_kind;
        payload = spec.create_payload minute;
        scheduled_for = minute;
        priority = some spec.priority;
        created_at = none;
        policy = spec.budget_policy;
        metadata = record {
          source = spec.source;
          labels = get_or spec.labels [];
          correlation_id = none;
        };
      })
      clock

abbrev pub trigger : Platform → CronWorkflowSpec → Time → Time → Ticking → Ticking
trigger p spec minute clock s =
    let envelope = job_envelope p spec minute clock in
    record {
      enqueued = s.enqueued ++ envelope.id ∷ [];
      jobs = save job_key (record { spec_id = spec.id; last_triggered_at = some minute }) s.jobs;
      queue = enqueue envelope s.queue;
    }

-- One round of the loop over the specifications; `none` where the cron expression does not return.
abbrev pub visit :
    Platform → CronWorkflowSpec → Time → Time → Option Bool → Ticking → Option Ticking
visit p spec minute clock none s = none
visit p spec minute clock (some false) s = some s
visit p spec minute clock (some true) s =
    if triggered_at (get_by_id job_key spec.id s.jobs) minute
    then some s
    else some (trigger p spec minute clock s)

unfoldable pub run_specs : Platform → List CronWorkflowSpec → Time → Time → Ticking → Option Ticking
run_specs p [] minute clock s = some s
run_specs p (spec ∷ specs) minute clock s =
    if_some (visit p spec minute clock (matches_cron_spec spec.cron minute) s)
      (λ t. run_specs p specs minute clock t)

pub record Ticked : Type 0 where
  pub tick : SchedulerTick
  pub jobs : List JobState
  pub queue : DispatchQueue

abbrev pub ticked : Time → Ticking → Ticked
ticked now s = record {
  tick = record {
    triggered_at = now;
    due_job_count = length s.enqueued;
    enqueued_task_ids = s.enqueued;
  };
  jobs = s.jobs;
  queue = s.queue;
}

unfoldable pub tick :
    Platform → List CronWorkflowSpec → Time → Time → List JobState → DispatchQueue → Option Ticked
tick p specs now clock jobs queue =
    if_some
      (run_specs p specs (floor_to_minute now) clock
        (record { enqueued = []; jobs = jobs; queue = queue }))
      (λ s. some (ticked now s))
