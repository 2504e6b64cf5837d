-- ===== src/Domain/Tests/Stages.antt =====
-- Tests of namespaces and of the stages of a workflow (packages/domain-core/src/entities).
use gana_v.Prelude.{◌≡◌, refl, ◌↔◌, true, false, not, ◌&&◌, none, some, [], is_some}
use text.Mathlib.TextBridge.{IsPrefix}
use gana_v.Prelude.Texts.{str_eq, truthy}
use gana_v.Numbers.Decimal.{decimal}
use gana_v.Policy.Coverage.{
  CoverageInput, no_override, forced_in, forced_out, not_chosen, rejected, is_rejected,
}
use gana_v.Domain.Common.{done, is_done}
use gana_v.Domain.Sandbox.{
  SandboxNamespace, sandbox, create_sandbox_namespace, assert_sandbox_isolation, isolation-prefix,
}
use gana_v.Domain.Workflow.{
  Entity, odds, ingestion, StageInput, pending, succeeded, transition_stage, set_status, set_time,
  is_invalid_odd, apply_manual_selection, apply_selection_override,
}
use gana_v.Domain.Stages.{covered, is_valid_odd, Changes, transition_stage-Changes, choice-covered}

abbrev space : {Stamp : Type 0} → Stamp → Stamp → SandboxNamespace Stamp
space created_at updated_at = record {
  id = "ns-1";
  environment = sandbox;
  sandbox_id = some "sb-1";
  scope = "replay";
  storage_prefix = "sandbox/sb-1";
  queue_prefix = "q";
  metadata = [];
  created_at = created_at;
  updated_at = updated_at;
}

created_space : create_sandbox_namespace (space none none) "a" ≡ done (space "a" "a")
unfolding create_sandbox_namespace
created_space = refl

test-isolation :
    (is_some (truthy (some "sb-1")) ≡ true)
    × ((is_done (assert_sandbox_isolation (space "a" "a") "prod/") ≡ false)
        ↔ IsPrefix "prod/" "sandbox/sb-1")
test-isolation = isolation-prefix (space none none) "a" (space "a" "a") "prod/" refl created_space

abbrev workflow : Entity decimal
workflow = record {
  id = "fx-1";
  fixture_id = "fx-1";
  statuses = record {
    ingestion_status = pending;
    odds_status = pending;
    enrichment_status = pending;
    candidate_status = pending;
    prediction_status = pending;
    parlay_status = pending;
    validation_status = pending;
  };
  is_candidate = false;
  min_detected_odd = none;
  quality_score = none;
  selection_score = none;
  times = record {
    last_ingested_at = none;
    last_enriched_at = none;
    last_predicted_at = none;
    last_parlay_at = none;
    last_validated_at = none;
  };
  manual_selection_status = not_chosen;
  manual_selection_by = none;
  manual_selection_reason = none;
  manually_selected_at = none;
  selection_override = no_override;
  override_reason = none;
  overridden_at = none;
  error_count = 0;
  last_error_message = none;
  diagnostics = none;
  created_at = "a";
  updated_at = "a";
}

abbrev odds_done : StageInput decimal
odds_done = record {
  status = succeeded;
  occurred_at = none;
  error_message = none;
  is_candidate = none;
  min_detected_odd = some 15000;
  quality_score = none;
  selection_score = none;
  diagnostics = none;
}

abbrev after_odds : Entity decimal
after_odds = record workflow {
  statuses = record workflow.statuses { odds_status = succeeded };
  times = record workflow.times { last_ingested_at = some "b" };
  min_detected_odd = some 15000;
  updated_at = "b";
}

odds_transition : transition_stage decimal workflow odds odds_done "b" ≡ done after_odds
unfolding transition_stage is_invalid_odd set_status set_time
odds_transition = refl

transition_stage-Changes_example :
    (is_done (transition_stage decimal workflow odds odds_done "b")
      ≡ is_valid_odd decimal odds_done.min_detected_odd)
    × Changes decimal workflow odds ingestion odds_done "b"
        (transition_stage decimal workflow odds odds_done "b")
transition_stage-Changes_example =
    transition_stage-Changes decimal workflow odds ingestion odds_done "b"

abbrev seen : CoverageInput decimal
seen = record {
  fixture = record {
    id = "fx-1";
    competition = "Cup";
    home_team = "Reds";
    away_team = "Blues";
    status = "scheduled";
    metadata = [];
  };
  workflow = none;
  league_policies = [];
  team_policies = [];
  daily_policy = record { min_allowed_odd = 15000; require_tracked_league_or_team = true };
  min_detected_odd = none;
}

choice-covered_example :
    (covered decimal seen (
        apply_selection_override decimal workflow
          (record { mode = forced_out; reason = none; occurred_at = none })
          "b")
      ≡ false)
    × (covered decimal seen (
          apply_manual_selection decimal workflow
            (record { status = rejected; selected_by = "ops"; reason = none; occurred_at = none })
            "b")
        ≡ false)
    × (covered decimal seen (
          apply_selection_override decimal workflow
            (record { mode = forced_in; reason = none; occurred_at = none })
            "b")
        ≡ (str_eq "scheduled" "scheduled" && not (is_rejected not_chosen)))
choice-covered_example = choice-covered decimal seen workflow "ops" none none "b"
