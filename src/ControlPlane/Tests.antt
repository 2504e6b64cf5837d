-- ===== src/ControlPlane/Tests.antt =====
-- The cycles of the control plane (packages/control-plane-runtime/src) on a queue of one task whose
-- worker is gone, and on two fixtures.
use gana_v.Prelude.{
  ◌≡◌, refl, ◌≤◌, ◌+◌, String, true, none, some, [], ◌∷◌, arith, length, any, keep, if◌then◌else◌,
}
use gana_v.Prelude.Sort.{sort}
use gana_v.Numbers.Decimal.{decimal}
use gana_v.Storage.{get_by_id, save}
use gana_v.Queue.Task.{TaskKind, Value}
use gana_v.Queue.Lifecycle.{start_task, renew_task_lease, schedule_task_retry, should_retry_task}
use gana_v.Queue.Store.{Platform, Store}
use gana_v.Queue.Enqueue.{EnqueueInput, enqueue}
use gana_v.Queue.Claims.{claim, start_claim, recycle_expired, claimable, task_run_id}
use gana_v.Queue.Adapter.{
  require_claim, save_claim, renew_lease, renew_claim, fail, fail_claim, retry_claim,
}
use gana_v.Queue.Histories.{
  Reach, start, enqueues, claims, IsNewId, empty_store, Reach-IsConsistent,
}
use gana_v.Queue.Recycled.{IsCalm}
use gana_v.Policy.Coverage.{Fixture, fixture_matches_league_policy, takes_out}
use gana_v.Policy.Scope.{
  is_tracked, override_of, manual_selection_of, matched_league_policy, matched_team_policies,
  exclude_reasons, odds_reasons, detected_odd,
}
use gana_v.ControlPlane.Adapter.{in_memory}
use gana_v.ControlPlane.Shared.{has_expired_task_lease}
use gana_v.ControlPlane.Cycle.{succeeded, failed}
use gana_v.ControlPlane.Recovery.{
  RecoveryOptions, lease_recovery_limit_of, redrive_limit_of, redrive_expired_lease, recover,
  recover_leases, lease_candidates, terminal_tasks,
}
use gana_v.ControlPlane.Recovery.Lists.{is_terminal}
use gana_v.ControlPlane.Recovery.Report.{RecoveryMetadata, Plane, run_recovery_cycle}
use gana_v.ControlPlane.Recovery.Keeps.{recovery-Reach}
use gana_v.ControlPlane.Recovery.Leases.{recovery-IsCalm}
use gana_v.ControlPlane.Recovery.Account.{is_error, recovery-accounts}
use gana_v.ControlPlane.Research.{
  OddsSelection, PlanningSnapshot, OddsClient, is_researched, research_verdict,
}

abbrev platform : Platform
platform = record {
  sha256_hex = λ s. s;
  to_iso_string = λ t. "t";
  number_to_string = λ n. "n";
  json_stringify = λ v. "v";
}

abbrev order : EnqueueInput
order = record {
  id = some "task-a";
  kind = TaskKind.prediction;
  payload = ("fixtureId", Value.text "fx-1") ∷ [];
  priority = none;
  manifest_id = none;
  workflow_id = none;
  trace_id = none;
  correlation_id = none;
  source = none;
  scheduled_for = none;
  max_attempts = none;
}

-- The task is claimed at 200, for five minutes.
abbrev lost : Store
lost = (claim platform "task-a" 200 (enqueue platform order 100 empty_store).1).1

order-IsNewId : IsNewId platform order 100 empty_store
unfolding get_by_id
order-IsNewId old e = cc

lost-Reach : Reach platform lost
lost-Reach = claims "task-a" 200 (enqueues order 100 order-IsNewId start)

abbrev plane : Plane (in_memory platform)
plane = record { queue = lost; cycles = [] }

abbrev options : RecoveryOptions
options = record { redrive_limit = some 1; lease_recovery_limit = none; renew_lease_ms = none }

test-recovery_reach :
    Reach platform
      (run_recovery_cycle platform (in_memory platform) 400000 "c" "r" 400000 options plane).1.queue
test-recovery_reach = recovery-Reach platform 400000 400000 "c" "r" options plane lost-Reach

recovery-IsCalm_example :
    IsCalm 400000
      (run_recovery_cycle platform (in_memory platform) 400000 "c" "r" 400000 options plane).1.queue
    × ((m : RecoveryMetadata) × ((run_recovery_cycle platform
            (in_memory platform)
            400000
            "c"
            "r"
            400000
            options
            plane).0.metadata
          ≡ some m)
        × (m.queue_health_after.expired_lease_task_ids ≡ []))
recovery-IsCalm_example =
    recovery-IsCalm platform 400000 400000 "c" "r" options plane
      (Reach-IsConsistent platform lost-Reach) (omega arith)

recovery-accounts_example :
    (m : RecoveryMetadata) × ((run_recovery_cycle platform
        (in_memory platform)
        400000
        "c"
        "r"
        400000
        options
        plane).0.metadata
      ≡ some m)
    × (length m.recovery_actions ≤ lease_recovery_limit_of options + redrive_limit_of options)
    × ((run_recovery_cycle platform
          (in_memory platform)
          400000
          "c"
          "r"
          400000
          options
          plane).0.status
        ≡ (if any is_error m.recovery_actions then failed else succeeded))
recovery-accounts_example =
    recovery-accounts platform (in_memory platform) 400000 400000 "c" "r" options plane

abbrev fixture_of : String → String → Fixture
fixture_of id status = record {
  id = id;
  competition = "Cup";
  home_team = "Reds";
  away_team = "Blues";
  status = status;
  metadata = [];
}

abbrev selection : String → OddsSelection decimal
selection key = record { selection_key = key; price_decimal = decimal.literal 2 0 }

abbrev client : OddsClient decimal
client = record {
  latest_odds = λ id provider. some (selection "home" ∷ selection "draw" ∷ selection "away" ∷ []);
  is_finite = λ n. true;
}

abbrev snapshot : PlanningSnapshot decimal
snapshot = record {
  fixtures = fixture_of "fx-1" "scheduled" ∷ fixture_of "fx-2" "live" ∷ [];
  fixture_workflows = [];
  daily_automation_policies = [];
  league_coverage_policies =
      record {
        id = "lp-1";
        league_key = "39";
        league_name = "Cup";
        enabled = true;
        always_on = true;
        priority = 7;
      }
      ∷ [];
  team_coverage_policies = [];
}

-- The lost task is reclaimed at 400000, and queued for a retry two minutes later.
the_lost_task_is_redriven :
    (recover platform (in_memory platform) 400000 120000 5 1 lost).0.actions
    ≡ redrive_expired_lease "task-a" "trn_task-a:n:t" (some 520000) ∷ []
unfolding recover recover_leases lease_candidates has_expired_task_lease sort claim start_claim
    start_task recycle_expired claimable enqueue get_by_id save task_run_id renew_lease fail
    schedule_task_retry terminal_tasks is_terminal should_retry_task require_claim renew_claim
    renew_task_lease save_claim fail_claim retry_claim
the_lost_task_is_redriven = refl

only_the_scheduled_fixture_is_researched :
    keep (is_researched decimal client snapshot) ("fx-1" ∷ "fx-2" ∷ []) ≡ "fx-1" ∷ []
unfolding research_verdict is_tracked override_of manual_selection_of matched_league_policy
    matched_team_policies exclude_reasons fixture_matches_league_policy odds_reasons detected_odd
    takes_out
only_the_scheduled_fixture_is_researched = refl
