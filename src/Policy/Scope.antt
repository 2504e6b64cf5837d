-- ===== src/Policy/Scope.antt =====
-- The decision about one fixture: the body of `evaluateFixtureCoverageScope`
-- (packages/policy-engine/src/index.ts).
use gana_v.Prelude.{
  ℕ, max, String, Bool, true, false, not, ◌&&◌, ◌||◌, Option, none, some, List, [], ◌∷◌, ◌++◌, map,
  if◌then◌else◌, or_else, is_some, length, keep, any, first, ltb,
}
use gana_v.Prelude.Texts.{str_eq, join}
use gana_v.Numbers.{Numbers}
use gana_v.Policy.Coverage.{
  force_include, force_exclude, manual_selected, manual_rejected, league_watch, team_watch,
  not_tracked_by_policy, fixture_not_scheduled, odds_below_min_threshold, league_policy,
  team_policy, daily_policy, manual_override, fixture_workflow, Reason, Fixture, SelectionOverride,
  ManualSelection, LeaguePolicy, TeamPolicy, Workflow, CoverageInput, CoverageDecision,
  fixture_matches_league_policy, fixture_matches_team_policy, takes_out, stops_scoring,
  is_forced_in, is_forced_out, is_selected, is_rejected, reason_if, highest,
}

unfoldable pub matched_league_policy : Fixture → List LeaguePolicy → Option LeaguePolicy
matched_league_policy fixture policies =
    first
      (λ policy. policy.enabled && policy.always_on && fixture_matches_league_policy fixture policy)
      policies

unfoldable pub matched_team_policies : Fixture → List TeamPolicy → List TeamPolicy
matched_team_policies fixture policies =
    keep
      (λ policy.
        policy.enabled && policy.always_track && fixture_matches_team_policy fixture policy)
      policies

abbrev pub league_reasons : Option LeaguePolicy → List Reason
league_reasons none = []
league_reasons (some policy) =
    record {
      code = league_watch;
      message = join ("Fixture matched watched league " ∷ policy.league_name ∷ "." ∷ []);
      source = league_policy;
      blocking = false;
    }
    ∷ []

abbrev pub team_reason : TeamPolicy → Reason
team_reason policy = record {
  code = team_watch;
  message = join ("Fixture matched watched team " ∷ policy.team_name ∷ "." ∷ []);
  source = team_policy;
  blocking = false;
}

abbrev league_priority : Option LeaguePolicy → ℕ
league_priority none = 0
league_priority (some policy) = policy.priority

abbrev league_id : Option LeaguePolicy → Option String
league_id none = none
league_id (some policy) = some policy.id

module _ (N : Numbers) where
  -- `workflow?.selectionOverride` and the other two; an optional workflow has none of them.
  unfoldable pub override_of : Option (Workflow N) → SelectionOverride
  override_of none = SelectionOverride.no_override
  override_of (some w) = elim w.selection_override [
    | none ↦ SelectionOverride.no_override
    | some o ↦ o
  ]

  unfoldable pub manual_selection_of : Option (Workflow N) → ManualSelection
  manual_selection_of none = ManualSelection.not_chosen
  manual_selection_of (some w) = elim w.manual_selection_status [
    | none ↦ ManualSelection.not_chosen
    | some s ↦ s
  ]

  unfoldable pub detected_odd : CoverageInput N → Option N.Num
  detected_odd input =
      or_else input.min_detected_odd
        (elim input.workflow [ none ↦ none | some w ↦ w.min_detected_odd ])

  unfoldable pub is_tracked : CoverageInput N → Bool
  is_tracked input =
      is_forced_in (override_of input.workflow)
      || is_selected (manual_selection_of input.workflow)
      || is_some (matched_league_policy input.fixture input.league_policies)
      || ltb 0 (length (matched_team_policies input.fixture input.team_policies))

  unfoldable pub include_reasons : CoverageInput N → List Reason
  include_reasons input =
      reason_if (is_forced_in (override_of input.workflow)) (record {
        code = force_include;
        message = "Fixture was force-included by workflow override.";
        source = manual_override;
        blocking = false;
      })
      ++ reason_if (is_selected (manual_selection_of input.workflow)) (record {
        code = manual_selected;
        message = "Fixture was manually selected for review.";
        source = fixture_workflow;
        blocking = false;
      })
      ++ league_reasons (matched_league_policy input.fixture input.league_policies)
      ++ map team_reason (matched_team_policies input.fixture input.team_policies)

  -- The threshold is only tested where an odd was detected.
  unfoldable pub odds_reasons : Option N.Num → N.Num → List Reason
  odds_reasons none allowed = []
  odds_reasons (some odd) allowed = reason_if (N.ltb odd allowed) (record {
    code = odds_below_min_threshold;
    message = join (
        "Fixture min detected odd "
        ∷ N.to_fixed odd 2
        ∷ " is below allowed threshold "
        ∷ N.to_fixed allowed 2
        ∷ "."
        ∷ []);
    source = daily_policy;
    blocking = true;
  })

  unfoldable pub exclude_reasons : CoverageInput N → List Reason
  exclude_reasons input =
      reason_if (not (str_eq input.fixture.status "scheduled")) (record {
        code = fixture_not_scheduled;
        message = join (
            "Fixture status " ∷ input.fixture.status ∷ " is not eligible for automated scoring."
            ∷ []);
        source = daily_policy;
        blocking = true;
      })
      ++ reason_if (is_forced_out (override_of input.workflow)) (record {
        code = force_exclude;
        message = "Fixture was force-excluded by workflow override.";
        source = manual_override;
        blocking = true;
      })
      ++ reason_if (is_rejected (manual_selection_of input.workflow)) (record {
        code = manual_rejected;
        message = "Fixture was manually rejected by operator workflow.";
        source = fixture_workflow;
        blocking = true;
      })
      ++ reason_if (input.daily_policy.require_tracked_league_or_team && not (is_tracked input))
          (record {
            code = not_tracked_by_policy;
            message = "Fixture does not belong to a tracked league or watched team.";
            source = daily_policy;
            blocking = true;
          })
      ++ odds_reasons (detected_odd input) input.daily_policy.min_allowed_odd

  unfoldable pub evaluate_fixture_coverage_scope : CoverageInput N → CoverageDecision N
  evaluate_fixture_coverage_scope input =
      let excluded_by = exclude_reasons input in
      let included = is_tracked input && not (any (λ r. takes_out r.code) excluded_by) in
      let eligible = included && not (any stops_scoring excluded_by) in
      let league = matched_league_policy input.fixture input.league_policies in
      let teams = matched_team_policies input.fixture input.team_policies in
      record {
        fixture_id = input.fixture.id;
        included = included;
        eligible_for_scoring = eligible;
        eligible_for_parlay = eligible;
        visible_in_ops = true;
        included_by = include_reasons input;
        excluded_by = excluded_by;
        min_detected_odd = detected_odd input;
        applied_min_allowed_odd = input.daily_policy.min_allowed_odd;
        matched_league_policy_id = league_id league;
        matched_team_policy_ids = map (λ policy. policy.id) teams;
        priority_score = max (league_priority league) (
            max (highest (map (λ policy. policy.priority) teams))
              (if is_forced_in (override_of input.workflow) then 1000 else 0));
      }
