-- ===== src/ControlPlane/Scheduler/Tests.antt =====
-- Two scheduler cycles in one minute (packages/control-plane-runtime/src/scheduler.ts).
use gana_v.Prelude.{◌≡◌, refl, true, none, some, [], ◌∷◌}
use gana_v.Numbers.Decimal.{decimal}
use gana_v.Storage.{get_by_id}
use gana_v.Queue.Enqueue.{enqueue}
use gana_v.Queue.Task.{TaskKind, Value}
use gana_v.Queue.Store.{Platform, Store}
use gana_v.Orchestration.Cron.{star, match_field, parse_cron_field}
use gana_v.Orchestration.Envelope.{ingest_odds}
use gana_v.Orchestration.Scheduler.{CronWorkflowSpec}
use gana_v.ControlPlane.Adapter.{in_memory}
use gana_v.ControlPlane.Cycle.{succeeded}
use gana_v.ControlPlane.Research.{PlanningSnapshot, OddsClient}
use gana_v.ControlPlane.Scheduler.{Desk, run_cron_specs}
use gana_v.ControlPlane.Scheduler.Cycle.{SchedulerOutcome, run_scheduler_cycle}
use gana_v.ControlPlane.Scheduler.Minutes.{cron_tasks, scheduler_once}

abbrev platform : Platform
platform = record {
  sha256_hex = λ s. s;
  to_iso_string = λ t. "t";
  number_to_string = λ n. "n";
  json_stringify = λ v. "v";
}

abbrev odds_poll : CronWorkflowSpec
odds_poll = record {
  id = "odds-intraday-poll";
  cron = record { minute = star; hour = star; day = star; month = star; weekday = star };
  intent = ingest_odds;
  task_kind = TaskKind.odds_ingestion;
  priority = 80;
  source = "control-plane/cron";
  labels = none;
  create_payload = λ at. ("marketKey", Value.text "h2h") ∷ [];
  budget_policy = none;
}

abbrev client : OddsClient decimal
client = record { latest_odds = λ id provider. none; is_finite = λ n. true }

abbrev snapshot : PlanningSnapshot decimal
snapshot = record {
  fixtures = [];
  fixture_workflows = [];
  daily_automation_policies = [];
  league_coverage_policies = [];
  team_coverage_policies = [];
}

abbrev no_tasks : Store
no_tasks = record { tasks = []; task_runs = [] }

abbrev fresh : Desk (in_memory platform)
fresh = record { queue = no_tasks; cursors = [] }

-- A cycle at 60100, which triggers the specification.
first_cycle :
    (a : SchedulerOutcome (in_memory platform)) × (run_scheduler_cycle platform 60100 60100 "c-1"
        (in_memory platform)
        decimal
        client
        snapshot
        (odds_poll ∷ [])
        []
        "s"
        none
        fresh
        []
      ≡ some a)
    × (a.cycle.status ≡ succeeded)
unfolding run_scheduler_cycle run_cron_specs match_field parse_cron_field get_by_id enqueue
first_cycle = (_, refl, refl)

scheduler_once_example :
    (b : SchedulerOutcome (in_memory platform)) × (run_scheduler_cycle platform 119999 119999 "c-2"
        (in_memory platform)
        decimal
        client
        snapshot
        (odds_poll ∷ [])
        []
        "s"
        none
        (record { queue = no_tasks; cursors = first_cycle.0.desk.cursors })
        []
      ≡ some b)
    × (cron_tasks b.cycle ≡ [])
    × (b.desk.cursors ≡ first_cycle.0.desk.cursors)
scheduler_once_example =
    scheduler_once platform (in_memory platform) decimal client client snapshot snapshot
      (odds_poll ∷ []) [] "s" "s" "c-1" "c-2" none none 60100 119999 60100 119999 fresh no_tasks []
      [] first_cycle.0 first_cycle.1 first_cycle.2 refl
