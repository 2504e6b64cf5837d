-- ===== src/ControlPlane/Research.antt =====
-- Which fixtures a scheduler cycle queues research for: `queueEligibleResearchTasks`
-- (packages/control-plane-runtime/src/scheduler.ts). The search for the latest odds is a call of the
-- database client, and an argument here: from the id of a fixture, and the provider's id where there
-- is one, to the selections of the latest snapshot.
pub mod Queued
pub mod Eligible
pub mod Plans
use gana_v.Prelude.{
  ℕ, String, Bool, true, false, not, ◌&&◌, Option, none, some, List, [], ◌∷◌, ◌++◌, map, get_or,
  if◌then◌else◌, any, first, head, keep, ltb, length,
}
use gana_v.Prelude.Texts.{str_eq, join, join_with}
use gana_v.Numbers.{Numbers}
use gana_v.Queue.Task.{TaskKind, Value, Payload, Time, Task}
use gana_v.Queue.Lifecycle.{Result, ok, err}
use gana_v.Queue.Enqueue.{EnqueueInput}
use gana_v.Policy.Coverage.{
  Reason, Fixture, LeaguePolicy, TeamPolicy, Workflow, DailyPolicy, CoverageInput, CoverageDecision,
  metadata_property,
}
use gana_v.Policy.Scope.{evaluate_fixture_coverage_scope}
use gana_v.ControlPlane.Adapter.{TaskQueue}

pub record PayloadInput : Type 0 where
  pub manifest_id : String
  pub workflow_id : String
  pub trace_id : String
  pub correlation_id : String
  pub source : String

-- `createRuntimeTaskPayload`: the last member of a name counts.
unfoldable pub create_runtime_task_payload : Payload → PayloadInput → Payload
create_runtime_task_payload payload input =
    payload
    ++ ("manifestId", Value.text input.manifest_id)
      ∷ ("workflowId", Value.text input.workflow_id)
      ∷ ("traceId", Value.text input.trace_id)
      ∷ ("correlationId", Value.text input.correlation_id)
      ∷ ("source", Value.text input.source)
      ∷ []

abbrev pub research_workflow_id : String → String
research_workflow_id manifest_id = join (manifest_id ∷ ":research" ∷ [])

abbrev pub research_task_id : String → String → String
research_task_id manifest_id fixture_id =
    join ("scheduler:" ∷ manifest_id ∷ ":research:" ∷ fixture_id ∷ [])

-- The input of `enqueue` for the research of one fixture.
unfoldable pub research_input : String → String → Time → EnqueueInput
unfolding create_runtime_task_payload
research_input manifest_id fixture_id now =
    let workflow_id = research_workflow_id manifest_id in
    let trace_id = join (workflow_id ∷ ":" ∷ fixture_id ∷ []) in
    record {
      id = some (research_task_id manifest_id fixture_id);
      kind = TaskKind.research;
      payload =
          create_runtime_task_payload
            (("fixtureId", Value.text fixture_id) ∷ ("step", Value.text "automation-research") ∷ [])
            (record {
              manifest_id = manifest_id;
              workflow_id = workflow_id;
              trace_id = trace_id;
              correlation_id = manifest_id;
              source = "hermes-scheduler";
            });
      priority = some 60;
      manifest_id = some manifest_id;
      workflow_id = some workflow_id;
      trace_id = some trace_id;
      correlation_id = some manifest_id;
      source = some "hermes-scheduler";
      scheduled_for = some now;
      max_attempts = none;
    }

-- Why a fixture is skipped, if it is.
pub data Verdict : Type 0 where
  included : Verdict
  skipped : String → Verdict

abbrev pub is_included : Verdict → Bool
is_included included = true
is_included (skipped _) = false

abbrev pub exclusion_message : List Reason → String
exclusion_message [] = "Coverage policy excluded fixture from scoring."
exclusion_message (r ∷ rs) = join_with "; " (map (λ reason. reason.message) (r ∷ rs))

pub record ResearchPlan : Type 0 where
  pub research_task_ids : List String
  pub included_fixture_ids : List String
  pub skipped_fixtures : List (String × String)

module _ (N : Numbers) where
  pub record OddsSelection : Type 0 where
    pub selection_key : String
    pub price_decimal : N.Num

  -- `SchedulerPlanningSnapshot`, with the workflow of a fixture under the fixture's id
  pub record PlanningSnapshot : Type 0 where
    pub fixtures : List Fixture
    pub fixture_workflows : List (String × Workflow N)
    pub daily_automation_policies : List (DailyPolicy N)
    pub league_coverage_policies : List LeaguePolicy
    pub team_coverage_policies : List TeamPolicy

  -- The database client: the selections of the latest odds, and `Number.isFinite`.
  pub record OddsClient : Type 0 where
    pub latest_odds : String → Option String → Option (List OddsSelection)
    pub is_finite : N.Num → Bool

  abbrev pub minimum : N.Num → List N.Num → N.Num
  minimum x [] = x
  minimum x (y ∷ ys) = minimum (N.least x y) ys

  abbrev pub minimum_of : List N.Num → Option N.Num
  minimum_of [] = none
  minimum_of (x ∷ xs) = some (minimum x xs)

  unfoldable pub detect_min_detected_odd : OddsClient → List OddsSelection → Option N.Num
  detect_min_detected_odd client selections =
      minimum_of (keep client.is_finite (map (λ s. s.price_decimal) selections))

  abbrev pub has_key : String → List OddsSelection → Bool
  has_key key selections = any (λ s. str_eq s.selection_key key) selections

  unfoldable pub has_complete_h2h : List OddsSelection → Bool
  has_complete_h2h selections =
      has_key "home" selections && has_key "draw" selections && has_key "away" selections

  -- `dailyAutomationPolicies[0] ?? {...}`, for the members that the policy reads
  unfoldable pub daily_policy_of : PlanningSnapshot → DailyPolicy N
  daily_policy_of snapshot =
      get_or (head snapshot.daily_automation_policies)
        (record { min_allowed_odd = N.literal 12 1; require_tracked_league_or_team = false })

  abbrev pub workflow_of : String → List (String × Workflow N) → Option (Workflow N)
  workflow_of fixture_id [] = none
  workflow_of fixture_id ((id, w) ∷ rest) =
      if str_eq id fixture_id then some w else workflow_of fixture_id rest

  unfoldable pub coverage_input :
      OddsClient → PlanningSnapshot → Fixture → List OddsSelection → CoverageInput N
  unfolding daily_policy_of detect_min_detected_odd
  coverage_input client snapshot fixture selections = record {
    fixture = fixture;
    workflow = workflow_of fixture.id snapshot.fixture_workflows;
    league_policies = snapshot.league_coverage_policies;
    team_policies = snapshot.team_coverage_policies;
    daily_policy = daily_policy_of snapshot;
    min_detected_odd = detect_min_detected_odd client selections;
  }

  abbrev pub scope_verdict : CoverageDecision N → Verdict
  scope_verdict decision =
      if decision.eligible_for_scoring
      then included
      else skipped (exclusion_message decision.excluded_by)

  abbrev pub odds_verdict :
      OddsClient → PlanningSnapshot → Fixture → Option (List OddsSelection) → Verdict
  odds_verdict client snapshot fixture none =
      skipped "No latest h2h odds snapshot found for fixture."
  odds_verdict client snapshot fixture (some selections) =
      if has_complete_h2h selections
      then scope_verdict
          (evaluate_fixture_coverage_scope N (coverage_input client snapshot fixture selections))
      else skipped "Latest h2h odds snapshot is missing home/draw/away selections."

  abbrev pub fixture_verdict : OddsClient → PlanningSnapshot → Option Fixture → Verdict
  fixture_verdict client snapshot none = skipped "Fixture not found in the operational snapshot."
  fixture_verdict client snapshot (some fixture) =
      odds_verdict client snapshot fixture
        (client.latest_odds fixture.id (metadata_property "providerFixtureId" fixture.metadata))

  -- One round of the loop, up to the call of `enqueue`.
  unfoldable pub research_verdict : OddsClient → PlanningSnapshot → String → Verdict
  unfolding has_complete_h2h coverage_input evaluate_fixture_coverage_scope metadata_property
  research_verdict client snapshot fixture_id =
      fixture_verdict client snapshot
        (first (λ candidate. str_eq candidate.id fixture_id) snapshot.fixtures)

  abbrev pub is_researched : OddsClient → PlanningSnapshot → String → Bool
  is_researched client snapshot id = is_included (research_verdict client snapshot id)

  module _ (q : TaskQueue) (client : OddsClient) (snapshot : PlanningSnapshot)
      (manifest_id : String) (now : Time) where
    abbrev pub add_skipped : String → String → ResearchPlan → ResearchPlan
    add_skipped id reason plan = record plan {
      skipped_fixtures = plan.skipped_fixtures ++ (id, reason) ∷ [];
    }

    abbrev pub add_research : String → String → ResearchPlan → ResearchPlan
    add_research id task plan = record plan {
      research_task_ids = plan.research_task_ids ++ task ∷ [];
      included_fixture_ids = plan.included_fixture_ids ++ id ∷ [];
    }

    abbrev pub visit_enqueued :
        String → ResearchPlan → Result Task × q.State → Result ResearchPlan × q.State
    visit_enqueued id plan (ok task, s) = (ok (add_research id task.id plan), s)
    visit_enqueued id plan (err e, s) = (err e, s)

    -- The rest of the round.
    unfoldable pub visit_fixture :
        String → Verdict → ResearchPlan → q.State → Result ResearchPlan × q.State
    unfolding research_input
    visit_fixture id (skipped reason) plan s = (ok (add_skipped id reason plan), s)
    visit_fixture id included plan s =
        visit_enqueued id plan (q.enqueue (research_input manifest_id id now) now s)

    -- An error of `enqueue` ends the loop, and the function.
    unfoldable pub queue_eligible :
        List String → ResearchPlan → q.State → Result ResearchPlan × q.State
    unfolding research_verdict visit_fixture
    queue_eligible [] plan s = (ok plan, s)
    queue_eligible (id ∷ ids) plan s =
        let (r, s') = visit_fixture id (research_verdict client snapshot id) plan s in
        elim r [ err e ↦ (err e, s') | ok next ↦ queue_eligible ids next s' ]
