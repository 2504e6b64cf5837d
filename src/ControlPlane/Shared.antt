-- ===== src/ControlPlane/Shared.antt =====
-- Helpers of the cycles (packages/control-plane-runtime/src/shared.ts).
use gana_v.Prelude.{
  ℕ, ◌+◌, String, Bool, false, ◌&&◌, ◌||◌, Option, none, some, List, [], ◌∷◌, ◌++◌, map, ltb, leb,
  if◌then◌else◌, keep, length,
}
use gana_v.Prelude.Texts.{str_eq, join}
use gana_v.Prelude.Unique.{unique}
use gana_v.Queue.Task.{TaskStatus, Value, Time, Task, same_status}
use gana_v.Queue.Lifecycle.{property}
use gana_v.Queue.Adapter.{TaskSummary}

pub data QueueHealthStatus : Type 0 where
  healthy degraded blocked : QueueHealthStatus

pub record QueueHealth : Type 0 where
  pub status : QueueHealthStatus
  pub reasons : List String
  pub expired_lease_task_ids : List String
  pub near_expiry_task_ids : List String

abbrev pub default_recovery_near_expiry_ms : ℕ
default_recovery_near_expiry_ms = 60000

abbrev pub default_recovery_renew_lease_ms : ℕ
default_recovery_renew_lease_ms = 120000

abbrev pub default_recovery_lease_recovery_limit : ℕ
default_recovery_lease_recovery_limit = 5

unfoldable pub dedupe_strings : List String → List String
unfolding unique
dedupe_strings values = unique str_eq values

-- `typeof task.payload.fixtureId === "string"`
abbrev pub text_of : Option Value → Option String
text_of (some (Value.text s)) = some s
text_of _ = none

unfoldable pub fixture_id_from_task : Task → Option String
unfolding property
fixture_id_from_task task = text_of (property "fixtureId" task.payload)

unfoldable pub task_lease_deadline : Task → Option Time
task_lease_deadline task =
    if same_status task.status TaskStatus.running then task.lease_expires_at else none

unfoldable pub has_expired_task_lease : Time → Task → Bool
unfolding task_lease_deadline
has_expired_task_lease now task = elim (task_lease_deadline task) [
  | none ↦ false
  | some deadline ↦ leb deadline now
]

unfoldable pub is_task_lease_expiring_soon : Time → Task → Bool
unfolding task_lease_deadline
is_task_lease_expiring_soon now task = elim (task_lease_deadline task) [
  | none ↦ false
  | some deadline ↦ ltb now deadline && leb deadline (now + default_recovery_near_expiry_ms)
]

abbrev pub task_id : Task → String
task_id t = t.id

abbrev pub reason_if : Bool → (ℕ → String) → ℕ → String → List String
reason_if test to_string n text = if test then join (to_string n ∷ text ∷ []) ∷ [] else []

-- The test and text of each reason, in the order in which they are pushed.
unfoldable pub health_reasons : (ℕ → String) → TaskSummary → ℕ → ℕ → List String
health_reasons to_string summary expired near =
    reason_if (ltb 0 summary.quarantined) to_string summary.quarantined
      " quarantined task(s) require manual review"
    ++ reason_if (ltb 0 expired) to_string expired
        " running task lease(s) expired and need recovery"
    ++ reason_if (ltb 0 summary.failed) to_string summary.failed
        " failed task(s) waiting for redrive"
    ++ reason_if (ltb 0 near) to_string near " running task(s) are near lease expiry"
    ++ reason_if (ltb 25 summary.queued) to_string summary.queued
        " queued task(s) indicate backlog pressure"

unfoldable pub health_status : TaskSummary → ℕ → ℕ → QueueHealthStatus
health_status summary expired near =
    if ltb 0 summary.quarantined || ltb 0 expired
    then blocked
    else if ltb 0 summary.failed || ltb 0 near || ltb 25 summary.queued
    then degraded
    else healthy

unfoldable pub assess_queue_health : (ℕ → String) → TaskSummary → List Task → Time → QueueHealth
unfolding dedupe_strings has_expired_task_lease is_task_lease_expiring_soon health_reasons
    health_status
assess_queue_health to_string summary tasks now =
    let expired = dedupe_strings (map task_id (keep (has_expired_task_lease now) tasks)) in
    let near = dedupe_strings (map task_id (keep (is_task_lease_expiring_soon now) tasks)) in
    record {
      status = health_status summary (length expired) (length near);
      reasons = health_reasons to_string summary (length expired) (length near);
      expired_lease_task_ids = expired;
      near_expiry_task_ids = near;
    }
