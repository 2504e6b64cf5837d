-- ===== src/Policy/Coverage.antt =====
-- Which fixtures are covered: `evaluateFixtureCoverageScope` (packages/policy-engine/src/index.ts).
-- Odds are numbers of the language. Priorities are natural numbers: the score is a maximum with 0.
use gana_v.Prelude.{
  ℕ, max, String, Bool, true, false, not, ◌&&◌, ◌||◌, Option, none, some, List, [], ◌∷◌,
  if◌then◌else◌, or_else,
}
use gana_v.Prelude.Texts.{str_eq, truthy}
use gana_v.Numbers.{Numbers}

pub data ReasonCode : Type 0 where
  force_include force_exclude manual_selected manual_rejected league_watch team_watch : ReasonCode
  not_tracked_by_policy fixture_not_scheduled odds_below_min_threshold : ReasonCode

pub data ReasonSource : Type 0 where
  league_policy team_policy daily_policy manual_override fixture_workflow : ReasonSource

pub record Reason : Type 0 where
  pub code : ReasonCode
  pub message : String
  pub source : ReasonSource
  pub blocking : Bool

pub record Fixture : Type 0 where
  pub id : String
  pub competition : String
  pub home_team : String
  pub away_team : String
  pub status : String
  pub metadata : List (String × String)

pub data SelectionOverride : Type 0 where
  no_override forced_in forced_out : SelectionOverride

pub data ManualSelection : Type 0 where
  not_chosen selected rejected : ManualSelection

pub record LeaguePolicy : Type 0 where
  pub id : String
  pub league_key : String
  pub league_name : String
  pub enabled : Bool
  pub always_on : Bool
  pub priority : ℕ

pub record TeamPolicy : Type 0 where
  pub id : String
  pub team_key : String
  pub team_name : String
  pub enabled : Bool
  pub always_track : Bool
  pub priority : ℕ
  pub follow_home : Bool
  pub follow_away : Bool

-- A property of the metadata that is not the empty text.
unfoldable pub metadata_property : String → List (String × String) → Option String
metadata_property k [] = none
metadata_property k ((j, v) ∷ rest) = if str_eq j k then some v else metadata_property k rest

unfoldable pub fixture_metadata_value : Fixture → String → Option String
unfolding metadata_property
fixture_metadata_value fixture key = truthy (metadata_property key fixture.metadata)

-- `value === text`, where the value may be missing
abbrev pub is_text : Option String → String → Bool
is_text none t = false
is_text (some s) t = str_eq s t

unfoldable pub fixture_matches_league_policy : Fixture → LeaguePolicy → Bool
unfolding fixture_metadata_value
fixture_matches_league_policy fixture policy =
    str_eq fixture.competition policy.league_name
    || is_text
        (or_else (fixture_metadata_value fixture "providerLeagueId")
          (fixture_metadata_value fixture "leagueKey"))
        policy.league_key

unfoldable pub fixture_matches_team_policy : Fixture → TeamPolicy → Bool
unfolding fixture_metadata_value
fixture_matches_team_policy fixture policy =
    (policy.follow_home
      && (str_eq fixture.home_team policy.team_name
          || is_text (fixture_metadata_value fixture "providerHomeTeamId") policy.team_key))
    || (policy.follow_away
        && (str_eq fixture.away_team policy.team_name
            || is_text (fixture_metadata_value fixture "providerAwayTeamId") policy.team_key))

-- `reason.code === ...`, for the four codes that take a fixture out of the scope
unfoldable pub takes_out : ReasonCode → Bool
takes_out force_exclude = true
takes_out manual_rejected = true
takes_out fixture_not_scheduled = true
takes_out not_tracked_by_policy = true
takes_out _ = false

unfoldable pub stops_scoring : Reason → Bool
stops_scoring reason =
    reason.blocking && not (elim reason.code [ not_tracked_by_policy ↦ true | _ ↦ false ])

abbrev pub is_forced_in : SelectionOverride → Bool
is_forced_in forced_in = true
is_forced_in _ = false

abbrev pub is_forced_out : SelectionOverride → Bool
is_forced_out forced_out = true
is_forced_out _ = false

abbrev pub is_selected : ManualSelection → Bool
is_selected selected = true
is_selected _ = false

abbrev pub is_rejected : ManualSelection → Bool
is_rejected rejected = true
is_rejected _ = false

-- `if (condition) reasons.push(reason)`
abbrev pub reason_if : Bool → Reason → List Reason
reason_if condition reason = if condition then reason ∷ [] else []

abbrev pub highest : List ℕ → ℕ
highest [] = 0
highest (n ∷ ns) = max n (highest ns)

module _ (N : Numbers) where
  pub record Workflow : Type 0 where
    pub selection_override : Option SelectionOverride
    pub manual_selection_status : Option ManualSelection
    pub min_detected_odd : Option N.Num

  pub record DailyPolicy : Type 0 where
    pub min_allowed_odd : N.Num
    pub require_tracked_league_or_team : Bool

  pub record CoverageInput : Type 0 where
    pub fixture : Fixture
    pub workflow : Option Workflow
    pub league_policies : List LeaguePolicy
    pub team_policies : List TeamPolicy
    pub daily_policy : DailyPolicy
    pub min_detected_odd : Option N.Num

  pub record CoverageDecision : Type 0 where
    pub fixture_id : String
    pub included : Bool
    pub eligible_for_scoring : Bool
    pub eligible_for_parlay : Bool
    pub visible_in_ops : Bool
    pub included_by : List Reason
    pub excluded_by : List Reason
    pub min_detected_odd : Option N.Num
    pub applied_min_allowed_odd : N.Num
    pub matched_league_policy_id : Option String
    pub matched_team_policy_ids : List String
    pub priority_score : ℕ
