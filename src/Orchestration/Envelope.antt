-- ===== src/Orchestration/Envelope.antt =====
-- Task envelopes and plans of workflows (packages/orchestration-sdk/src/index.ts).
use gana_v.Prelude.{ℕ, String, Option, List, [], ◌∷◌, get_or, map}
use gana_v.Prelude.Texts.{join}
use gana_v.Queue.Task.{TaskKind, Value, Payload, Time}
use gana_v.Queue.Store.{Platform, compute_opaque_id}
use gana_v.Queue.Enqueue.{kind_name, members_of}
use gana_v.Orchestration.Budget.{BudgetPolicy, PartialPolicy, normalize_budget_policy}

pub data WorkflowIntent : Type 0 where
  ingest_fixtures ingest_odds hydrate_fixture_context : WorkflowIntent
  research_fixture score_predictions publish_card : WorkflowIntent

abbrev pub intent_name : WorkflowIntent → String
intent_name ingest_fixtures = "ingest-fixtures"
intent_name ingest_odds = "ingest-odds"
intent_name hydrate_fixture_context = "hydrate-fixture-context"
intent_name research_fixture = "research-fixture"
intent_name score_predictions = "score-predictions"
intent_name publish_card = "publish-card"

pub record Metadata : Type 0 where
  pub source : String
  pub labels : List String
  pub correlation_id : Option String

pub record Envelope : Type 0 where
  pub id : String
  pub workflow_id : String
  pub trace_id : String
  pub intent : WorkflowIntent
  pub task_kind : TaskKind
  pub dedupe_key : String
  pub payload : Payload
  pub scheduled_for : Time
  pub priority : ℕ
  pub created_at : Time
  pub policy : BudgetPolicy
  pub metadata : Metadata

-- What a task of a plan gives; the rest is the plan's.
pub record PlannedTask : Type 0 where
  pub task_kind : TaskKind
  pub payload : Payload
  pub scheduled_for : Time
  pub priority : Option ℕ
  pub created_at : Option Time
  pub policy : Option PartialPolicy
  pub metadata : Metadata

pub record WorkflowPlan : Type 0 where
  pub workflow_id : String
  pub trace_id : String
  pub intent : WorkflowIntent
  pub envelopes : List Envelope

unfoldable pub dedupe_key_of : Platform → WorkflowIntent → TaskKind → Time → Payload → String
dedupe_key_of p intent kind scheduled_for payload = join (
    intent_name intent
    ∷ ":"
    ∷ kind_name kind
    ∷ ":"
    ∷ p.to_iso_string scheduled_for
    ∷ ":"
    ∷ p.json_stringify (Value.object (members_of payload))
    ∷ [])

-- `computeTaskId`
unfoldable pub compute_task_id : Platform → String → String
compute_task_id p seed = compute_opaque_id p "tsk" seed

unfoldable pub create_task_envelope :
    Platform → String → String → WorkflowIntent → PlannedTask → Time → Envelope
unfolding normalize_budget_policy
create_task_envelope p workflow_id trace_id intent input now =
    let dedupe_key = dedupe_key_of p intent input.task_kind input.scheduled_for input.payload in
    record {
      id = compute_task_id p (join (workflow_id ∷ ":" ∷ dedupe_key ∷ []));
      workflow_id = workflow_id;
      trace_id = trace_id;
      intent = intent;
      task_kind = input.task_kind;
      dedupe_key = dedupe_key;
      payload = input.payload;
      scheduled_for = input.scheduled_for;
      priority = get_or input.priority 0;
      created_at = get_or input.created_at now;
      policy = normalize_budget_policy input.policy;
      metadata = input.metadata;
    }

unfoldable pub create_workflow_intent_plan :
    Platform → String → String → WorkflowIntent → List PlannedTask → Time → WorkflowPlan
create_workflow_intent_plan p workflow_id trace_id intent tasks now = record {
  workflow_id = workflow_id;
  trace_id = trace_id;
  intent = intent;
  envelopes = map (λ task. create_task_envelope p workflow_id trace_id intent task now) tasks;
}
