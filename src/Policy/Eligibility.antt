-- ===== src/Policy/Eligibility.antt =====
-- What the decision about a fixture comes to (packages/policy-engine/src/index.ts).
use gana_v.Prelude.{
  map, ◌≡◌, refl, Bool, true, false, not, ◌&&◌, ◌||◌, Option, none, some, List, [], ◌∷◌, arith, any,
  is_some, ltb, length,
}
use gana_v.Prelude.Texts.{str_eq}
use gana_v.Numbers.{Numbers}
use gana_v.Policy.Coverage.{
  Reason, CoverageInput, takes_out, stops_scoring, is_forced_out, is_rejected, reason_if,
  is_forced_in, is_selected, TeamPolicy, LeaguePolicy,
}
use gana_v.Policy.Scope.{
  override_of, manual_selection_of, detected_odd, is_tracked, odds_reasons, exclude_reasons,
  evaluate_fixture_coverage_scope, matched_league_policy, matched_team_policies, league_reasons,
  team_reason, include_reasons,
}

any-reason_if : (p : Reason → Bool) (b : Bool) (r : Reason) → any p (reason_if b r) ≡ (b && p r)
any-reason_if p b r = ground arith

abbrev pub some_reason : List Reason → Bool
some_reason [] = false
some_reason (r ∷ rs) = true

league_reasons-some :
    (policy : Option LeaguePolicy) → some_reason (league_reasons policy) ≡ is_some policy
league_reasons-some none = refl
league_reasons-some (some policy) = refl

map-some :
    (f : TeamPolicy → Reason) (policies : List TeamPolicy)
    → some_reason (map f policies) ≡ ltb 0 (length policies)
map-some f [] = refl
map-some f (p ∷ ps) = ground arith

-- The tests of an odd against its threshold; an odd that is not known passes.
module _ (N : Numbers) where
  abbrev pub below : Option N.Num → N.Num → Bool
  below none allowed = false
  below (some odd) allowed = N.ltb odd allowed

  odds_take_out :
      (odd : Option N.Num) (allowed : N.Num)
      → any (λ r. takes_out r.code) (odds_reasons N odd allowed) ≡ false
  unfolding odds_reasons takes_out
  odds_take_out none allowed = refl
  odds_take_out (some odd) allowed = ground arith

  odds_stop_scoring :
      (odd : Option N.Num) (allowed : N.Num)
      → any stops_scoring (odds_reasons N odd allowed) ≡ below odd allowed
  unfolding odds_reasons stops_scoring
  odds_stop_scoring none allowed = refl
  odds_stop_scoring (some odd) allowed = ground arith

  odds_reasons-some :
      (odd : Option N.Num) (allowed : N.Num)
      → some_reason (odds_reasons N odd allowed) ≡ below odd allowed
  unfolding odds_reasons
  odds_reasons-some none allowed = refl
  odds_reasons-some (some odd) allowed = ground arith

  module _ (input : CoverageInput N) where
    abbrev scheduled : Bool
    scheduled = str_eq input.fixture.status "scheduled"

    abbrev dropped : Bool
    dropped =
        is_forced_out (override_of N input.workflow)
        || is_rejected (manual_selection_of N input.workflow)

    abbrev untracked : Bool
    untracked = input.daily_policy.require_tracked_league_or_team && not (is_tracked N input)

    exclude_take_out :
        any (λ r. takes_out r.code) (exclude_reasons N input)
        ≡ (not scheduled || (dropped || untracked))
    unfolding exclude_reasons takes_out
    exclude_take_out =
        ground (arith, odds_take_out (detected_odd N input) input.daily_policy.min_allowed_odd)

    exclude_stop_scoring : any stops_scoring (exclude_reasons N input) ≡ (
        not scheduled
        || (dropped || below (detected_odd N input) input.daily_policy.min_allowed_odd))
    unfolding exclude_reasons stops_scoring
    exclude_stop_scoring =
        ground (arith, odds_stop_scoring (detected_odd N input) input.daily_policy.min_allowed_odd)

  -- A fixture is included exactly where it is tracked and scheduled and the workflow neither
  -- forces it out nor rejects it: forcing out beats forcing in, and forcing in does not make up
  -- for a status other than "scheduled". It is tracked where the workflow forces it in or selects
  -- it, where a league policy matches, or where some team policy does. It may be scored exactly
  -- where it is included and no odd below the threshold was detected, and what may be scored may
  -- be in a parlay.
  pub coverage-decision :
      (input : CoverageInput N)
      → ((evaluate_fixture_coverage_scope N input).included ≡ (
          is_tracked N input
          && str_eq input.fixture.status "scheduled"
          && not (is_forced_out (override_of N input.workflow))
          && not (is_rejected (manual_selection_of N input.workflow))))
        × ((evaluate_fixture_coverage_scope N input).eligible_for_scoring ≡ (
            (evaluate_fixture_coverage_scope N input).included
            && not (below (detected_odd N input) input.daily_policy.min_allowed_odd)))
        × ((evaluate_fixture_coverage_scope N input).eligible_for_parlay
            ≡ (evaluate_fixture_coverage_scope N input).eligible_for_scoring)
        × (is_tracked N input ≡ (
            is_forced_in (override_of N input.workflow)
            || is_selected (manual_selection_of N input.workflow)
            || is_some (matched_league_policy input.fixture input.league_policies)
            || ltb 0 (length (matched_team_policies input.fixture input.team_policies))))
  unfolding evaluate_fixture_coverage_scope is_tracked
  coverage-decision input = (
    ground (arith, exclude_take_out input),
    ground (arith, exclude_take_out input, exclude_stop_scoring input),
    refl,
    refl,
  )

  module _ (input : CoverageInput N) where
    include_reasons-some : some_reason (include_reasons N input) ≡ is_tracked N input
    unfolding include_reasons is_tracked
    include_reasons-some =
        let e = league_reasons-some (matched_league_policy input.fixture input.league_policies) in
        let f = map-some team_reason (matched_team_policies input.fixture input.team_policies) in
        ground (arith, e, f)

    exclude_reasons-some : some_reason (exclude_reasons N input) ≡ (
        not (scheduled input)
        || (dropped input
            || (untracked input
                || below (detected_odd N input) input.daily_policy.min_allowed_odd)))
    unfolding exclude_reasons
    exclude_reasons-some =
        ground (arith, odds_reasons-some (detected_odd N input) input.daily_policy.min_allowed_odd)

  -- The reasons account for the decision: a fixture has a reason to be included exactly where it is
  -- tracked, and it may be scored exactly where it has one and there is no reason against it.
  pub coverage-reasons :
      (input : CoverageInput N)
      → (some_reason (evaluate_fixture_coverage_scope N input).included_by ≡ is_tracked N input)
        × ((evaluate_fixture_coverage_scope N input).eligible_for_scoring ≡ (
            some_reason (evaluate_fixture_coverage_scope N input).included_by
            && not (some_reason (evaluate_fixture_coverage_scope N input).excluded_by)))
  unfolding evaluate_fixture_coverage_scope
  coverage-reasons input = (
    include_reasons-some input,
    ground (
      arith,
      include_reasons-some input,
      exclude_reasons-some input,
      exclude_take_out input,
      exclude_stop_scoring input,
    ),
  )
