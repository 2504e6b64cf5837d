-- ===== src/Queue/Task.antt =====
-- The entities of the task queue (packages/queue-adapters/src/index.ts). A time is the number of
-- milliseconds since the epoch: every time that the code keeps is printed by `toISOString`, whose
-- texts have one length and order as the times do.
use gana_v.Prelude.{ℕ, String, Bool, true, false, Option, List}

pub data TaskStatus : Type 0 where
  queued running succeeded failed quarantined cancelled : TaskStatus

pub data TaskKind : Type 0 where
  fixture_ingestion odds_ingestion research prediction validation sandbox_replay : TaskKind

pub data TriggerKind : Type 0 where
  cron manual retry system : TriggerKind

pub data RunStatus : Type 0 where
  running succeeded failed cancelled : RunStatus

-- The values of a `Record<string, unknown>`.
mutual
  pub data Value : Type 0 where
    null : Value
    boolean : Bool → Value
    number : ℕ → Value
    text : String → Value
    array : Items → Value
    object : Members → Value

  pub data Items : Type 0 where
    no_items : Items
    item : Value → Items → Items

  pub data Members : Type 0 where
    no_members : Members
    member : String → Value → Members → Members

abbrev pub Payload : Type 0
Payload = List (String × Value)

abbrev pub Time : Type 0
Time = ℕ

pub record Attempt : Type 0 where
  pub started_at : Time
  pub finished_at : Option Time
  pub error : Option String

pub record Task : Type 0 where
  pub id : String
  pub kind : TaskKind
  pub status : TaskStatus
  pub trigger_kind : TriggerKind
  pub priority : ℕ
  pub dedupe_key : Option String
  pub manifest_id : Option String
  pub workflow_id : Option String
  pub trace_id : Option String
  pub correlation_id : Option String
  pub source : Option String
  pub payload : Payload
  pub attempts : List Attempt
  pub scheduled_for : Option Time
  pub max_attempts : ℕ
  pub last_error_message : Option String
  pub lease_owner : Option String
  pub lease_expires_at : Option Time
  pub claimed_at : Option Time
  pub last_heartbeat_at : Option Time
  pub active_task_run_id : Option String
  pub created_at : Time
  pub updated_at : Time

pub record TaskRun : Type 0 where
  pub id : String
  pub task_id : String
  pub attempt_number : ℕ
  pub status : RunStatus
  pub worker_name : Option String
  pub started_at : Time
  pub finished_at : Option Time
  pub error : Option String
  pub result : Option Payload
  pub retry_scheduled_for : Option Time
  pub created_at : Time
  pub updated_at : Time

-- What a claim hands to a worker.
pub record Claim : Type 0 where
  pub task : Task
  pub task_run : TaskRun

-- `===` on statuses and kinds
abbrev pub same_status : TaskStatus → TaskStatus → Bool
same_status queued queued = true
same_status running running = true
same_status succeeded succeeded = true
same_status failed failed = true
same_status quarantined quarantined = true
same_status cancelled cancelled = true
same_status _ _ = false

abbrev pub same_kind : TaskKind → TaskKind → Bool
same_kind fixture_ingestion fixture_ingestion = true
same_kind odds_ingestion odds_ingestion = true
same_kind research research = true
same_kind prediction prediction = true
same_kind validation validation = true
same_kind sandbox_replay sandbox_replay = true
same_kind _ _ = false

abbrev pub is_running : RunStatus → Bool
is_running RunStatus.running = true
is_running _ = false

abbrev pub task_key : Task → String
task_key t = t.id

abbrev pub run_key : TaskRun → String
run_key r = r.id
