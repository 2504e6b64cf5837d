-- ===== src/Policy/Tests.antt =====
-- The policies (packages/policy-engine/src/index.ts) on small inputs.
use gana_v.Prelude.{
  ◌≡◌, refl, ◌↔◌, true, false, not, ◌&&◌, ◌||◌, none, some, [], ◌∷◌, ◌+◌, ltb, any, All, length,
  is_some,
}
use gana_v.Prelude.Texts.{str_eq}
use gana_v.Numbers.Decimal.{decimal}
use gana_v.Policy.Coverage.{
  Fixture, LeaguePolicy, TeamPolicy, CoverageInput, SelectionOverride, forced_in, forced_out,
  is_forced_in, is_forced_out, is_selected, is_rejected, takes_out, stops_scoring,
  fixture_matches_league_policy, fixture_matches_team_policy,
}
use gana_v.Policy.Scope.{
  override_of, manual_selection_of, detected_odd, is_tracked, evaluate_fixture_coverage_scope,
  matched_league_policy, matched_team_policies, exclude_reasons, odds_reasons,
}
use gana_v.Policy.Eligibility.{below, some_reason, coverage-decision, coverage-reasons}
use gana_v.Policy.Gates.{
  pass, warn, OperationalInput, ready, blocked, blocks, is_needed, is_healthy, healthy,
  evaluate_operational_policy, in_order,
}
use gana_v.Policy.Promotion.{
  Evidence, PromotionInput, PromotionStatus, promotable, evaluate_sandbox_promotion,
}
use gana_v.Policy.Publication.{is_weak, policy-publishes, promotion-gates}

abbrev cup_match : Fixture
cup_match = record {
  id = "fx-1";
  competition = "Cup";
  home_team = "Reds";
  away_team = "Blues";
  status = "scheduled";
  metadata = ("leagueKey", "39") ∷ [];
}

abbrev league : LeaguePolicy
league = record {
  id = "lp-1";
  league_key = "39";
  league_name = "Premier";
  enabled = true;
  always_on = true;
  priority = 7;
}

abbrev blues : TeamPolicy
blues = record {
  id = "tp-1";
  team_key = "12";
  team_name = "Blues";
  enabled = true;
  always_track = true;
  priority = 9;
  follow_home = true;
  follow_away = false;
}

abbrev forced : SelectionOverride → CoverageInput decimal
forced mode = record {
  fixture = cup_match;
  workflow = some (record {
    selection_override = some mode;
    manual_selection_status = none;
    min_detected_odd = some 12000;
  });
  league_policies = league ∷ [];
  team_policies = blues ∷ [];
  daily_policy = record { min_allowed_odd = 15000; require_tracked_league_or_team = true };
  min_detected_odd = none;
}

coverage-decision_example :
    ((evaluate_fixture_coverage_scope decimal (forced forced_in)).included ≡ (
      is_tracked decimal (forced forced_in)
      && str_eq cup_match.status "scheduled"
      && not (is_forced_out (override_of decimal (forced forced_in).workflow))
      && not (is_rejected (manual_selection_of decimal (forced forced_in).workflow))))
    × ((evaluate_fixture_coverage_scope decimal (forced forced_in)).eligible_for_scoring ≡ (
        (evaluate_fixture_coverage_scope decimal (forced forced_in)).included
        && not (below decimal (detected_odd decimal (forced forced_in)) 15000)))
    × ((evaluate_fixture_coverage_scope decimal (forced forced_in)).eligible_for_parlay
        ≡ (evaluate_fixture_coverage_scope decimal (forced forced_in)).eligible_for_scoring)
    × (is_tracked decimal (forced forced_in) ≡ (
        is_forced_in (override_of decimal (forced forced_in).workflow)
        || is_selected (manual_selection_of decimal (forced forced_in).workflow)
        || is_some (matched_league_policy cup_match (league ∷ []))
        || ltb 0 (length (matched_team_policies cup_match (blues ∷ [])))))
coverage-decision_example = coverage-decision decimal (forced forced_in)

test-coverage_reasons :
    (some_reason (evaluate_fixture_coverage_scope decimal (forced forced_out)).included_by
      ≡ is_tracked decimal (forced forced_out))
    × ((evaluate_fixture_coverage_scope decimal (forced forced_out)).eligible_for_scoring ≡ (
        some_reason (evaluate_fixture_coverage_scope decimal (forced forced_out)).included_by
        && not (
            some_reason (evaluate_fixture_coverage_scope decimal (forced forced_out)).excluded_by)))
test-coverage_reasons = coverage-reasons decimal (forced forced_out)

abbrev quiet : OperationalInput decimal
quiet = record {
  health = record { status = healthy; checks = [] };
  retries = record { retrying = 0; failed = 0; quarantined = 0; exhausted = 0 };
  backfills = record { area = "odds"; status = in_order; detail = "fresh" } ∷ [];
  traceability = record { task_trace_coverage_rate = 9000; ai_run_request_coverage_rate = 5000 };
}

policy-publishes_example :
    ((evaluate_operational_policy decimal quiet).publish_allowed ≡ (
      not (ltb 0 quiet.retries.exhausted)
      && not (ltb 0 quiet.retries.quarantined)
      && not (any (λ b. is_needed b.status) quiet.backfills)))
    × (((evaluate_operational_policy decimal quiet).status ≡ blocked)
        ↔ ((evaluate_operational_policy decimal quiet).publish_allowed ≡ false))
    × (((evaluate_operational_policy decimal quiet).status ≡ ready) ↔ (
        (evaluate_operational_policy decimal quiet).publish_allowed
          && (is_healthy quiet.health.status
              && (not (ltb 0 (quiet.retries.retrying + quiet.retries.failed))
                  && not (is_weak decimal quiet.traceability)))
        ≡ true))
policy-publishes_example = policy-publishes decimal quiet

abbrev good : Evidence
good = record { status = pass; detail = "ok" }

abbrev unreviewed : PromotionInput
unreviewed = record {
  certification = good;
  contract_coverage = good;
  cron_workflows = good;
  publication_safety = good;
  capability_isolation = good;
  manual_qa = record { status = warn; detail = "pending" };
}

test-promotion :
    (((evaluate_sandbox_promotion unreviewed).status ≡ promotable)
      ↔ All (λ g. g.status ≡ pass) (evaluate_sandbox_promotion unreviewed).gates)
    × (((evaluate_sandbox_promotion unreviewed).status ≡ PromotionStatus.blocked)
        ↔ (any blocks (evaluate_sandbox_promotion unreviewed).gates ≡ true))
    × (length (evaluate_sandbox_promotion unreviewed).gates ≡ 6)
test-promotion = promotion-gates unreviewed

forced_in_below_the_odds :
    ((evaluate_fixture_coverage_scope decimal (forced forced_in)).included ≡ true)
    × ((evaluate_fixture_coverage_scope decimal (forced forced_in)).eligible_for_parlay ≡ false)
    × ((evaluate_fixture_coverage_scope decimal (forced forced_in)).priority_score ≡ 1000)
unfolding evaluate_fixture_coverage_scope is_tracked override_of exclude_reasons manual_selection_of
    odds_reasons detected_odd takes_out stops_scoring matched_league_policy
    fixture_matches_league_policy matched_team_policies fixture_matches_team_policy
forced_in_below_the_odds = (refl, refl, refl)
