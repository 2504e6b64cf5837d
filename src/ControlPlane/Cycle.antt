-- ===== src/ControlPlane/Cycle.antt =====
-- The record of a cycle: `createAutomationCycle`
-- (packages/domain-core/src/entities/automation-cycle.ts) and `updateCycle`
-- (packages/control-plane-runtime/src/shared.ts). The metadata, an open record of the language, is of
-- a type that the kind of cycle chooses.
use gana_v.Prelude.{ℕ, String, Option, some, List, get_or, or_else}
use gana_v.Prelude.Texts.{truthy}
use gana_v.Queue.Task.{Time}

pub data CycleKind : Type 0 where
  scheduler dispatcher recovery : CycleKind

pub data CycleStatus : Type 0 where
  running succeeded failed : CycleStatus

pub data CycleStage : Type 0 where
  research prediction parlay validation : CycleStage

pub data StageStatus : Type 0 where
  stage_pending stage_running stage_succeeded stage_failed stage_blocked stage_degraded :
      StageStatus

pub record Stage : Type 0 where
  pub stage : CycleStage
  pub status : StageStatus
  pub task_ids : List String
  pub task_run_ids : List String
  pub retry_count : ℕ
  pub stage_started_at : Option Time
  pub stage_completed_at : Option Time
  pub stage_error : Option String

pub record CycleSummary : Type 0 where
  pub source : String
  pub fixture_ids : List String
  pub task_ids : List String
  pub stages : List Stage
  pub counts : Option (List (String × ℕ))

pub record AutomationCycle (M : Type 0) : Type 0 where
  pub id : String
  pub kind : CycleKind
  pub status : CycleStatus
  pub lease_owner : String
  pub started_at : Time
  pub finished_at : Option Time
  pub summary : Option CycleSummary
  pub metadata : Option M
  pub error : Option String
  pub created_at : Time
  pub updated_at : Time

abbrev pub cycle_key : {M : Type 0} → AutomationCycle M → String
cycle_key c = c.id

-- What a cycle is created with; `clock` is the time that `nowIso` reads.
pub record CycleInput (M : Type 0) : Type 0 where
  pub id : String
  pub kind : CycleKind
  pub status : CycleStatus
  pub lease_owner : String
  pub started_at : Time
  pub finished_at : Option Time
  pub summary : Option CycleSummary
  pub metadata : Option M
  pub error : Option String
  pub created_at : Option Time
  pub updated_at : Option Time

unfoldable pub create_automation_cycle : {M : Type 0} → CycleInput M → Time → AutomationCycle M
create_automation_cycle input clock =
    let timestamp = get_or input.created_at clock in
    record {
      id = input.id;
      kind = input.kind;
      status = input.status;
      lease_owner = input.lease_owner;
      started_at = input.started_at;
      finished_at = input.finished_at;
      summary = input.summary;
      metadata = input.metadata;
      error = truthy input.error;
      created_at = timestamp;
      updated_at = get_or input.updated_at timestamp;
    }

-- The arguments of `updateCycle`.
pub record CycleUpdate (M : Type 0) : Type 0 where
  pub status : CycleStatus
  pub finished_at : Time
  pub summary : Option CycleSummary
  pub metadata : Option M
  pub error : Option String

unfoldable pub update_cycle : {M : Type 0} → AutomationCycle M → CycleUpdate M → AutomationCycle M
unfolding create_automation_cycle
update_cycle cycle input =
    create_automation_cycle
      (record {
        id = cycle.id;
        kind = cycle.kind;
        status = input.status;
        lease_owner = cycle.lease_owner;
        started_at = cycle.started_at;
        finished_at = some input.finished_at;
        summary = or_else input.summary cycle.summary;
        metadata = or_else input.metadata cycle.metadata;
        error = or_else (truthy input.error) cycle.error;
        created_at = some cycle.created_at;
        updated_at = some input.finished_at;
      })
      input.finished_at
