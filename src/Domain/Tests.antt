-- ===== src/Domain/Tests.antt =====
-- The entities of the domain (packages/domain-core/src) on small inputs.
mod Stages
use gana_v.Prelude.{
  ◌≡◌, refl, ◌↔◌, true, false, not, ◌&&◌, none, some, [], ◌∷◌, ◌+◌, ◌≤◌, Option, is_some, get_or,
  ltb, if◌then◌else◌,
}
use text.Mathlib.TextBridge.{IsPrefix}
use gana_v.Prelude.Texts.{str_eq, truthy}
use gana_v.Numbers.Decimal.{decimal}
use gana_v.Queue.Task.{TaskStatus, TaskKind, Task, same_status}
use gana_v.Policy.Coverage.{
  CoverageInput, no_override, forced_in, forced_out, not_chosen, rejected, is_rejected,
}
use gana_v.Domain.Common.{IsoDate, done, is_done, ◌>>=◌}
use gana_v.Domain.Task.{TaskInput, create_task, start_task, FinishStatus, finish_task}
use gana_v.Domain.TaskHistory.{Lived, created, started, Fits, Lived-Fits, task_moves}
use gana_v.Domain.Fixture.{
  Fixture, FixtureStatus, scheduled, live, completed, valid_transitions, transition_fixture_status,
}
use gana_v.Domain.FixtureHistory.{
  progress, transition-forward, Transitions, here, moved, Transitions-bounded,
}
use gana_v.Domain.Prediction.{
  PredictionStatus, draft, PredictionSettlement, Prediction, moneyline, home, is_published,
  create_prediction, publish_prediction, settle_prediction,
}
use gana_v.Domain.PredictionHistory.{Made, IsSound, Made-IsSound}
use gana_v.Domain.Parlay.{ParlaySettlement, Parlay, can_settle, settle_parlay}
use gana_v.Domain.Parlay
use gana_v.Domain.Validation.{
  Validation, Verdict, is_pending, finalize_validation, as_passed, as_failed, sandbox_regression,
}
use gana_v.Domain.Validation
use gana_v.Domain.AiRun.{
  AiRun, AiSettlement, AiRunDetails, absent, is_unsettled, settle_ai_run, as_completed, as_failed,
}
use gana_v.Domain.AiRun
use gana_v.Domain.Once.{settled_once}
use gana_v.Domain.Sandbox.{
  SandboxNamespace, sandbox, create_sandbox_namespace, assert_sandbox_isolation, isolation-prefix,
}
use gana_v.Domain.Workflow.{
  Entity, odds, ingestion, StageInput, pending, succeeded, transition_stage, status_of, time_of,
  set_status, set_time, is_invalid_odd, apply_manual_selection, apply_selection_override,
}
use gana_v.Domain.Stages.{
  same_stage, shares_time, covered, transition_stage-Changes, choice-covered,
}

abbrev input : TaskInput
input = record {
  id = "tsk-1";
  kind = TaskKind.research;
  status = TaskStatus.queued;
  trigger_kind = none;
  priority = 50;
  dedupe_key = none;
  manifest_id = none;
  workflow_id = none;
  trace_id = none;
  correlation_id = none;
  source = none;
  payload = [];
  attempts = none;
  scheduled_for = none;
  max_attempts = none;
  last_error_message = none;
  lease_owner = none;
  lease_expires_at = none;
  claimed_at = none;
  last_heartbeat_at = none;
  active_task_run_id = none;
  created_at = none;
  updated_at = none;
}

abbrev running_task : Task
running_task = record (create_task input 5) {
  status = TaskStatus.running;
  attempts = record { started_at = 7; finished_at = none; error = none } ∷ [];
  updated_at = 7;
}

running-Lived : Lived running_task
unfolding create_task start_task
running-Lived = started 7 (created input 5 refl tt) refl

Lived-Fits_example : Fits running_task.status running_task.attempts
Lived-Fits_example = Lived-Fits running-Lived

task_moves_example :
    (is_done (start_task running_task 9) ≡ same_status running_task.status TaskStatus.queued)
    × (is_done (finish_task running_task FinishStatus.succeeded none 9)
        ≡ same_status running_task.status TaskStatus.running)
task_moves_example = task_moves running_task FinishStatus.succeeded none 9 running-Lived

abbrev cup_match : FixtureStatus → IsoDate → Fixture IsoDate
cup_match status at = record {
  id = "fx-1";
  sport = "football";
  competition = "Cup";
  home_team = "Reds";
  away_team = "Blues";
  scheduled_at = "2026-01-01T18:00:00.000Z";
  status = status;
  score = none;
  metadata = [];
  created_at = "2026-01-01T00:00:00.000Z";
  updated_at = at;
}

test-forward :
    is_done (transition_fixture_status (cup_match completed "a") live none "b")
    ≡ ltb (progress completed) (progress live)
test-forward = transition-forward (cup_match completed "a") live none "b"

one_move : Transitions 1 (cup_match scheduled "a") (cup_match live "b")
unfolding transition_fixture_status valid_transitions
one_move = moved live none "b" here refl

Transitions-bounded_example :
    (1 + progress scheduled ≤ progress live)
    × (1 ≤ 2)
    × ((is_some (cup_match scheduled "a").score && not (is_some (cup_match live "b").score))
        ≡ false)
Transitions-bounded_example = Transitions-bounded one_move

abbrev drafted :
    {Stamp : Type 0}
    → PredictionStatus
    → Option IsoDate
    → Option IsoDate
    → Stamp
    → Stamp
    → Prediction decimal Stamp
drafted status published_at settled_at created_at updated_at = record {
  id = "p-1";
  fixture_id = "fx-1";
  ai_run_id = none;
  market = moneyline;
  outcome = home;
  status = status;
  confidence = 6000;
  probabilities = record { implied = 5000; model = 6000; edge = 1000; line = none };
  rationale = [];
  published_at = published_at;
  settled_at = settled_at;
  created_at = created_at;
  updated_at = updated_at;
}

abbrev settled_prediction : Prediction decimal IsoDate
settled_prediction = drafted PredictionStatus.settled (some "b") (some "c") "a" "c"

settled-Made : Made decimal settled_prediction
unfolding create_prediction publish_prediction settle_prediction
settled-Made =
    Made.settles PredictionSettlement.as_settled "c"
      (Made.published "b" (Made.created (drafted draft none none none none) "a" refl refl refl refl)
        refl)
      refl

Made-IsSound_example : IsSound decimal settled_prediction
Made-IsSound_example = Made-IsSound decimal settled-Made

abbrev ready_parlay : Parlay decimal IsoDate
ready_parlay = record {
  id = "par-1";
  status = Parlay.ParlayStatus.ready;
  stake = 100000;
  source = Parlay.ParlaySource.manual;
  legs = [];
  correlation_score = 0;
  expected_payout = 200000;
  submitted_at = none;
  settled_at = none;
  created_at = "a";
  updated_at = "a";
}

abbrev open_validation : Validation IsoDate
open_validation = record {
  id = "v-1";
  target_type = Validation.ValidationTarget.task;
  target_id = "tsk-1";
  kind = sandbox_regression;
  status = Validation.ValidationStatus.pending;
  checks = [];
  summary = "";
  executed_at = none;
  created_at = "a";
  updated_at = "a";
}

abbrev pending_run : AiRun IsoDate
pending_run = record {
  id = "air-1";
  task_id = "tsk-1";
  provider = "p";
  model = "m";
  prompt_version = "v1";
  status = AiRun.AiRunStatus.pending;
  provider_request_id = none;
  usage = none;
  output_ref = none;
  error = none;
  fallback_reason = none;
  degraded = none;
  created_at = "a";
  updated_at = "a";
}

abbrev no_details : AiRunDetails
no_details = record {
  provider_request_id = absent;
  usage = absent;
  output_ref = absent;
  error = absent;
  fallback_reason = absent;
  degraded = absent;
}

abbrev published_one : Prediction decimal IsoDate
published_one = drafted PredictionStatus.published (some "b") none "a" "b"

settled_once_example :
    ((is_done (settle_prediction decimal published_one PredictionSettlement.as_settled "c")
        ≡ is_published published_one.status)
      × (is_done (
            settle_prediction decimal published_one PredictionSettlement.as_settled "c" >>= λ q.
            publish_prediction decimal q "d")
          ≡ false)
      × (is_done (
            settle_prediction decimal published_one PredictionSettlement.as_settled "c" >>= λ q.
            settle_prediction decimal q PredictionSettlement.as_voided "d")
          ≡ false))
    × ((is_done (settle_parlay decimal ready_parlay [] ParlaySettlement.as_settled "c")
          ≡ can_settle ready_parlay.status)
        × (is_done (
              settle_parlay decimal ready_parlay [] ParlaySettlement.as_settled "c" >>= λ q.
              settle_parlay decimal q [] ParlaySettlement.as_voided "d")
            ≡ false))
    × ((is_done (finalize_validation open_validation as_passed [] "" "c")
          ≡ is_pending open_validation.status)
        × (is_done (
              finalize_validation open_validation as_passed [] "" "c" >>= λ w.
              finalize_validation w as_failed [] "again" "d")
            ≡ false))
    × ((is_done (settle_ai_run pending_run as_completed no_details "c")
          ≡ is_unsettled pending_run.status)
        × (is_done (
              settle_ai_run pending_run as_completed no_details "c" >>= λ b.
              settle_ai_run b AiSettlement.as_failed no_details "d")
            ≡ false))
settled_once_example =
    settled_once decimal published_one ready_parlay open_validation pending_run
      PredictionSettlement.as_settled PredictionSettlement.as_voided ParlaySettlement.as_settled
      ParlaySettlement.as_voided as_passed as_failed as_completed AiSettlement.as_failed [] [] [] []
      "" "again" no_details no_details "c" "d"
