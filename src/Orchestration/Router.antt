-- ===== src/Orchestration/Router.antt =====
-- The router of workflows (packages/orchestration-sdk/src/index.ts). A handler is a parameter: it
-- returns a value or throws. Of what it throws the router reads a message, the one of an `Error` or
-- the text of another value, and the entries of an object, whose values are JSON values here.
use gana_v.Prelude.{
  ◌-◌, String, Bool, true, false, Option, none, some, List, [], ◌∷◌, if◌then◌else◌, or_else,
}
use gana_v.Prelude.Texts.{join}
use gana_v.Prelude.Unique.{unique}
use gana_v.Prelude.{map}
use gana_v.Queue.Task.{Value, Payload, Time}
use gana_v.Orchestration.Budget.{BudgetSnapshot}
use gana_v.Orchestration.Envelope.{
  WorkflowIntent, ingest_fixtures, ingest_odds, hydrate_fixture_context, research_fixture,
  score_predictions, publish_card, intent_name, Envelope,
}
use gana_v.Orchestration.Dispatch.{succeeded, failed, ExecutionResult}

pub data Handled : Type 0 where
  returned : Value → Handled
  thrown : String → Payload → Handled

pub record JobHandler : Type 0 where
  pub intent : WorkflowIntent
  pub handle : Envelope → Handled

abbrev pub same_intent : WorkflowIntent → WorkflowIntent → Bool
same_intent ingest_fixtures ingest_fixtures = true
same_intent ingest_odds ingest_odds = true
same_intent hydrate_fixture_context hydrate_fixture_context = true
same_intent research_fixture research_fixture = true
same_intent score_predictions score_predictions = true
same_intent publish_card publish_card = true
same_intent _ _ = false

-- `handlerMap.get(intent)`: the last handler of an intent is the one in the map.
unfoldable pub handler_for : WorkflowIntent → List JobHandler → Option JobHandler
handler_for intent [] = none
handler_for intent (h ∷ hs) =
    or_else (handler_for intent hs) (if same_intent h.intent intent then some h else none)

-- `serializeErrorDetails`
abbrev pub serialize_error_details : Payload → Option Payload
serialize_error_details [] = none
serialize_error_details (e ∷ es) = some (e ∷ es)

-- The budget of one dispatch between two readings of the clock.
abbrev pub spent : Time → Time → BudgetSnapshot
spent started_at now = record {
  attempts_used = 1;
  credits_used = 1;
  runtime_ms_used = now - started_at;
}

abbrev pub result_of : Handled → Time → Time → ExecutionResult
result_of (returned output) started_at now = record {
  status = succeeded;
  finished_at = now;
  output = some output;
  error = none;
  error_details = none;
  budget_snapshot = some (spent started_at now);
}
result_of (thrown message entries) started_at now = record {
  status = failed;
  finished_at = now;
  output = none;
  error = some message;
  error_details = serialize_error_details entries;
  budget_snapshot = some (spent started_at now);
}

abbrev pub unhandled : WorkflowIntent → Time → ExecutionResult
unhandled intent now = record {
  status = failed;
  finished_at = now;
  output = none;
  error = some (join ("unhandled_intent:" ∷ intent_name intent ∷ []));
  error_details = none;
  budget_snapshot = none;
}

abbrev pub dispatch_to : Option JobHandler → Envelope → Time → Time → ExecutionResult
dispatch_to none envelope started_at now = unhandled envelope.intent now
dispatch_to (some h) envelope started_at now = result_of (h.handle envelope) started_at now

unfoldable pub dispatch : List JobHandler → Envelope → Time → Time → ExecutionResult
dispatch handlers envelope started_at now =
    dispatch_to (handler_for envelope.intent handlers) envelope started_at now

unfoldable pub intents : List JobHandler → List WorkflowIntent
intents handlers = unique same_intent (map (λ h. h.intent) handlers)
