-- ===== src/Orchestration/Tests.antt =====
-- The orchestration helpers (packages/orchestration-sdk/src/index.ts) on small inputs.
use gana_v.Prelude.{
  ℕ, ◌≡◌, refl, ◌↔◌, ◌⊎◌, Bool, true, false, none, some, [], ◌∷◌, ◌++◌, All, ltb, ◌==◌, any,
  if◌then◌else◌, arith,
}
use gana_v.Prelude.Unique.{Differ}
use gana_v.Storage.{get_by_id}
use gana_v.Queue.Task.{TaskKind, Value}
use gana_v.Queue.Store.{Platform}
use gana_v.Orchestration.Budget.{
  BudgetSnapshot, PartialSnapshot, default_workflow_budget, evaluate_budget, consume_budget,
}
use gana_v.Prelude.{length, ◌&&◌}
use gana_v.Orchestration.Spending.{fits_in, amounts, limits, budget-remaining}
use gana_v.Orchestration.Envelope.{ingest_odds, publish_card, Envelope}
use gana_v.Orchestration.Dispatch.{Reservation, DispatchQueue, scored_before, dequeue}
use gana_v.Orchestration.Order.{is_due, Takes, dequeue-order, score-lexicographic}
use gana_v.Orchestration.Cron.{
  star, every, listed, match_field, parse_cron_field, step_values, matches_cron_spec,
}
use gana_v.Orchestration.CronFields.{IsReached, every-steps, every_zero_endless}
use gana_v.Orchestration.Scheduler.{CronWorkflowSpec, trigger, Ticked, ticked, tick, run_specs}
use gana_v.Orchestration.Minutes.{tick_once}
use gana_v.Orchestration.Router.{
  JobHandler, Handled, returned, same_intent, result_of, unhandled, dispatch, intents,
}
use gana_v.Orchestration.Routes.{dispatch-last}

abbrev platform : Platform
platform = record {
  sha256_hex = λ s. s;
  to_iso_string = λ t. "t";
  number_to_string = λ n. "n";
  json_stringify = λ v. "{}";
}

abbrev half_used : BudgetSnapshot
half_used = record { attempts_used = 1; credits_used = 50; runtime_ms_used = 0 }

abbrev sixty_credits : PartialSnapshot
sixty_credits = record { attempts_used = none; credits_used = some 60; runtime_ms_used = none }

budget-remaining_example :
    ((evaluate_budget default_workflow_budget half_used).accepted
      ≡ fits_in half_used (limits default_workflow_budget))
    × ((length (evaluate_budget default_workflow_budget half_used).reasons == 0)
        ≡ fits_in half_used (limits default_workflow_budget))
    × ((evaluate_budget default_workflow_budget (consume_budget half_used sixty_credits)).accepted
        ≡ (fits_in half_used (limits default_workflow_budget)
            && fits_in
                (amounts sixty_credits)
                (evaluate_budget default_workflow_budget half_used).remaining))
budget-remaining_example = budget-remaining default_workflow_budget half_used sixty_credits

abbrev at_minute : ℕ → ℕ → Envelope
at_minute scheduled_for priority = record {
  id = "tsk_1";
  workflow_id = "w";
  trace_id = "t";
  intent = ingest_odds;
  task_kind = TaskKind.odds_ingestion;
  dedupe_key = "d";
  payload = [];
  scheduled_for = scheduled_for;
  priority = priority;
  created_at = 0;
  policy = default_workflow_budget;
  metadata = record { source = "s"; labels = []; correlation_id = none };
}

abbrev one_queued : DispatchQueue
one_queued = record { queued = at_minute 60000 5 ∷ []; running = []; completed_items = [] }

dequeue-order_example :
    ((dequeue 70000 one_queued ≡ (none, one_queued))
      × All (λ e. is_due 70000 e ≡ false) one_queued.queued)
    ⊎ ((r : Reservation) × ((dequeue 70000 one_queued).0 ≡ some r)
        × Takes 70000 one_queued r (dequeue 70000 one_queued).1)
dequeue-order_example = dequeue-order 70000 one_queued (tt, tt)

test-score_lexicographic :
    scored_before (at_minute 60000 5) (at_minute 120000 80)
    ≡ (if 60000 == 120000 then ltb 80 5 else ltb 60000 120000)
test-score_lexicographic =
    score-lexicographic (at_minute 60000 5) (at_minute 120000 80) refl refl (omega arith)
      (omega arith)

every-steps_example :
    (b : Bool) × (match_field (every 15) 30 0 59 ≡ some b) × ((b ≡ true) ↔ IsReached 0 59 15 30)
every-steps_example = every-steps 15 0 59 30 (omega arith)

every_zero_endless_example :
    (step_values 1000 0 59 0 ≡ none) × (match_field (every 0) 30 0 59 ≡ none)
every_zero_endless_example = every_zero_endless 1000 0 59 30 (omega arith)

abbrev poll : CronWorkflowSpec
poll = record {
  id = "odds-intraday-poll";
  cron = record { minute = every 15; hour = star; day = star; month = star; weekday = star };
  intent = ingest_odds;
  task_kind = TaskKind.odds_ingestion;
  priority = 80;
  source = "control-plane/cron";
  labels = none;
  create_payload = λ t. [];
  budget_policy = none;
}

abbrev idle : DispatchQueue
idle = record { queued = []; running = []; completed_items = [] }

abbrev first_tick : Ticked
first_tick =
    ticked 900500
      (trigger platform poll 900000 900600 (record { enqueued = []; jobs = []; queue = idle }))

first_ticks : tick platform (poll ∷ []) 900500 900600 [] idle ≡ some first_tick
unfolding tick run_specs matches_cron_spec match_field parse_cron_field step_values get_by_id
first_ticks = refl

tick_once_example :
    tick platform (poll ∷ []) 930000 930001 first_tick.jobs idle
    ≡ some (ticked 930000 (record { enqueued = []; jobs = first_tick.jobs; queue = idle }))
tick_once_example =
    tick_once platform (poll ∷ []) 900500 930000 900600 930001 [] idle idle first_tick first_ticks
      refl

abbrev answers : ℕ → JobHandler
answers n = record { intent = ingest_odds; handle = λ e. returned (Value.number n) }

abbrev publishes : JobHandler
publishes = record { intent = publish_card; handle = λ e. Handled.thrown "closed" [] }

test-dispatch_last :
    (dispatch ((answers 1 ∷ []) ++ answers 2 ∷ publishes ∷ []) (at_minute 60000 5) 10 30
      ≡ result_of (returned (Value.number 2)) 10 30)
    × (dispatch (publishes ∷ []) (at_minute 60000 5) 10 30 ≡ unhandled ingest_odds 30)
    × (any (λ x. same_intent x ingest_odds) (intents (publishes ∷ [])) ≡ false)
    × Differ same_intent (intents ((answers 1 ∷ []) ++ answers 2 ∷ publishes ∷ []))
test-dispatch_last =
    dispatch-last (answers 1 ∷ []) (publishes ∷ []) (answers 2) (at_minute 60000 5) 10 30 refl refl

first_of_march_2024 :
    matches_cron_spec
      (record {
        minute = listed (30 ∷ []);
        hour = every 6;
        day = listed (1 ∷ []);
        month = listed (3 ∷ []);
        weekday = listed (5 ∷ []);
      })
      1709274600000
    ≡ some true
unfolding matches_cron_spec match_field parse_cron_field step_values
first_of_march_2024 = refl
