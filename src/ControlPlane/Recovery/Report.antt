-- ===== src/ControlPlane/Recovery/Report.antt =====
-- The record that `runRecoveryCycle` (packages/control-plane-runtime/src/recovery.ts) saves before
-- and after the two loops. `id` stands for `cycleId("recovery", now)`, which is random; telemetry
-- and the read model of the answer are left out.
use gana_v.Prelude.{
  ℕ, ltb, String, Option, none, some, List, [], ◌∷◌, ◌++◌, map, if◌then◌else◌, keep, length, head,
}
use gana_v.Prelude.Texts.{truthy}
use gana_v.Storage.{save}
use gana_v.Queue.Task.{Time, Task}
use gana_v.Queue.Store.{Platform}
use gana_v.Queue.Adapter.{TaskSummary}
use gana_v.ControlPlane.Adapter.{TaskQueue}
use gana_v.ControlPlane.Shared.{
  QueueHealth, dedupe_strings, fixture_id_from_task, assess_queue_health, task_id,
}
use gana_v.ControlPlane.Cycle.{
  recovery, running, succeeded, failed, CycleStatus, CycleSummary, AutomationCycle, cycle_key,
  create_automation_cycle, update_cycle,
}
use gana_v.ControlPlane.Recovery.Lists.{lists}
use gana_v.ControlPlane.Recovery.{
  RecoveryAction, Progress, RecoveryOptions, redrive_limit_of, lease_recovery_limit_of,
  renew_lease_ms_of, lease_candidates, recover,
}

pub record RecoveryMetadata : Type 0 where
  pub queue_summary_before : TaskSummary
  pub queue_summary_after : TaskSummary
  pub queue_health_before : QueueHealth
  pub queue_health_after : QueueHealth
  pub expired_lease_task_ids : List String
  pub near_expiry_task_ids : List String
  pub recovered_lease_task_ids : List String
  pub renewed_lease_task_ids : List String
  pub redriven_task_ids : List String
  pub quarantined_task_ids : List String
  pub manual_review_task_ids : List String
  pub skipped_task_ids : List String
  pub recovery_actions : List RecoveryAction
  pub recovery_errors : Option (List String)

abbrev pub RecoveryRecord : Type 0
RecoveryRecord = AutomationCycle RecoveryMetadata

-- What a cycle works on: the queue, and the records of the cycles.
pub record Plane (q : TaskQueue) : Type 0 where
  pub queue : q.State
  pub cycles : List RecoveryRecord

-- `task.payload.fixtureId` of the affected tasks, where it is a text that is not empty
abbrev pub fixture_ids : List Task → List String
fixture_ids [] = []
fixture_ids (t ∷ ts) = elim (truthy (fixture_id_from_task t)) [
  | none ↦ fixture_ids ts
  | some id ↦ id ∷ fixture_ids ts
]

unfoldable pub affected_task_ids : List Task → Progress → List String
unfolding dedupe_strings
affected_task_ids candidates g =
    dedupe_strings (map task_id candidates ++ g.redriven ++ g.quarantined ++ g.skipped)

abbrev pub count_of : List String → ℕ
count_of ids = length (dedupe_strings ids)

unfoldable pub recovery_summary : List Task → List Task → Progress → CycleSummary
unfolding affected_task_ids dedupe_strings fixture_id_from_task
recovery_summary candidates after g =
    let affected = affected_task_ids candidates g in
    record {
      source = "hermes-recovery";
      fixture_ids = dedupe_strings (fixture_ids (keep (λ t. lists affected t.id) after));
      task_ids = affected;
      stages = [];
      counts = some (
          ("researchTaskCount", 0)
          ∷ ("predictionTaskCount", 0)
          ∷ ("parlayCount", 0)
          ∷ ("validationTaskCount", 0)
          ∷ ("expiredLeaseCount", length candidates)
          ∷ ("recoveredLeaseCount", count_of g.recovered)
          ∷ ("renewedLeaseCount", count_of g.renewed)
          ∷ ("redrivenTaskCount", count_of g.redriven)
          ∷ ("quarantinedTaskCount", count_of g.quarantined)
          ∷ ("manualReviewTaskCount", count_of g.manual_review)
          ∷ []);
    }

abbrev pub errors_if_any : List String → Option (List String)
errors_if_any [] = none
errors_if_any (e ∷ es) = some (e ∷ es)

abbrev pub recovery_status : List String → CycleStatus
recovery_status errors = if ltb 0 (length errors) then failed else succeeded

module _ (p : Platform) (q : TaskQueue) (now : Time) where
  abbrev pub assess : q.State → QueueHealth
  assess s = assess_queue_health p.number_to_string (q.summary s) (q.list s) now

  unfoldable pub recovery_metadata : q.State → q.State → List Task → Progress → RecoveryMetadata
  unfolding dedupe_strings assess_queue_health
  recovery_metadata before after candidates g = record {
    queue_summary_before = q.summary before;
    queue_summary_after = q.summary after;
    queue_health_before = assess before;
    queue_health_after = assess after;
    expired_lease_task_ids = map task_id candidates;
    near_expiry_task_ids = (assess before).near_expiry_task_ids;
    recovered_lease_task_ids = dedupe_strings g.recovered;
    renewed_lease_task_ids = dedupe_strings g.renewed;
    redriven_task_ids = dedupe_strings g.redriven;
    quarantined_task_ids = dedupe_strings g.quarantined;
    manual_review_task_ids = dedupe_strings g.manual_review;
    skipped_task_ids = dedupe_strings g.skipped;
    recovery_actions = g.actions;
    recovery_errors = errors_if_any g.errors;
  }

  unfoldable pub started_record : String → String → Time → RecoveryRecord
  unfolding create_automation_cycle
  started_record id lease_owner clock =
      create_automation_cycle
        (record {
          id = id;
          kind = recovery;
          status = running;
          lease_owner = lease_owner;
          started_at = now;
          finished_at = none;
          summary = some (record {
            source = "hermes-recovery";
            fixture_ids = [];
            task_ids = [];
            stages = [];
            counts = none;
          });
          metadata = none;
          error = none;
          created_at = none;
          updated_at = none;
        })
        clock

  unfoldable pub finished_record :
      RecoveryRecord → q.State → q.State → List Task → Progress → RecoveryRecord
  unfolding update_cycle recovery_summary recovery_metadata
  finished_record started before after candidates g = update_cycle started (record {
    status = recovery_status g.errors;
    finished_at = now;
    summary = some (recovery_summary candidates (q.list after) g);
    metadata = some (recovery_metadata before after candidates g);
    error = head g.errors;
  })

  -- The record of the finished cycle, and what the cycle leaves.
  unfoldable pub run_recovery_cycle :
      String → String → Time → RecoveryOptions → Plane q → RecoveryRecord × Plane q
  unfolding started_record finished_record recover lease_candidates save
  run_recovery_cycle id lease_owner clock options s =
      let started = started_record id lease_owner clock in
      let limit = lease_recovery_limit_of options in
      let candidates = lease_candidates now limit (q.list s.queue) in
      let (g, after) =
        recover p q now (renew_lease_ms_of options) limit (redrive_limit_of options) s.queue in
      let finished = finished_record started s.queue after candidates g in
      (
        finished,
        record {
          queue = after;
          cycles = save cycle_key finished (save cycle_key started s.cycles);
        },
      )
