-- ===== src/Orchestration/Dispatch.antt =====
-- `SimpleInMemoryQueue`, the queue between the control plane and its workers
-- (packages/orchestration-sdk/src/index.ts). Each `Map` is a list in insertion order.
use gana_v.Prelude.{ℕ, ◌+◌, String, Bool, Option, none, some, List, keep, head, length, leb, ltb}
use gana_v.Prelude.Sort.{sort}
use gana_v.Storage.{save, delete}
use gana_v.Queue.Task.{Payload, Value, Time}
use gana_v.Orchestration.Budget.{BudgetSnapshot}
use gana_v.Orchestration.Envelope.{Envelope}

pub record Reservation : Type 0 where
  pub envelope : Envelope
  pub dequeued_at : Time

pub data ExecutionStatus : Type 0 where
  succeeded failed cancelled : ExecutionStatus

pub record ExecutionResult : Type 0 where
  pub status : ExecutionStatus
  pub finished_at : Time
  pub output : Option Value
  pub error : Option String
  pub error_details : Option Payload
  pub budget_snapshot : Option BudgetSnapshot

-- A result under the id of its task
pub record Completed : Type 0 where
  pub task_id : String
  pub result : ExecutionResult

pub record DispatchQueue : Type 0 where
  pub queued : List Envelope
  pub running : List Reservation
  pub completed_items : List Completed

pub record QueueStats : Type 0 where
  pub queued : ℕ
  pub running : ℕ
  pub completed : ℕ

abbrev pub envelope_key : Envelope → String
envelope_key e = e.id

abbrev pub reservation_key : Reservation → String
reservation_key r = r.envelope.id

abbrev pub completed_key : Completed → String
completed_key c = c.task_id

-- `scoreEnvelope(right) - scoreEnvelope(left) < 0`, where the score is the priority less the
-- milliseconds of the scheduled time: both sides are moved over to stay natural.
unfoldable pub scored_before : Envelope → Envelope → Bool
scored_before left right =
    ltb (right.priority + left.scheduled_for) (left.priority + right.scheduled_for)

unfoldable pub enqueue : Envelope → DispatchQueue → DispatchQueue
enqueue envelope q = record q { queued = save envelope_key envelope q.queued }

-- The first of the sorted envelopes that are due.
unfoldable pub next_envelope : List Envelope → Time → Option Envelope
next_envelope queued now =
    head (sort scored_before (keep (λ item. leb item.scheduled_for now) queued))

-- What `dequeue` does with the envelope that it found.
abbrev pub reserve : Time → Option Envelope → DispatchQueue → Option Reservation × DispatchQueue
reserve now none q = (none, q)
reserve now (some envelope) q =
    let reservation : Reservation = record { envelope = envelope; dequeued_at = now } in
    (
      some reservation,
      record q {
        queued = delete envelope_key envelope.id q.queued;
        running = save reservation_key reservation q.running;
      },
    )

unfoldable pub dequeue : Time → DispatchQueue → Option Reservation × DispatchQueue
dequeue now q = reserve now (next_envelope q.queued now) q

unfoldable pub complete : String → ExecutionResult → DispatchQueue → DispatchQueue
complete task_id result q = record q {
  running = delete reservation_key task_id q.running;
  completed_items =
      save completed_key (record { task_id = task_id; result = result }) q.completed_items;
}

abbrev pub peek : DispatchQueue → List Envelope
peek q = q.queued

abbrev pub results : DispatchQueue → List Completed
results q = q.completed_items

abbrev pub stats : DispatchQueue → QueueStats
stats q = record {
  queued = length q.queued;
  running = length q.running;
  completed = length q.completed_items;
}
