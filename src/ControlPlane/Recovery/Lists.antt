-- ===== src/ControlPlane/Recovery/Lists.antt =====
-- The tests and orders of the two lists of tasks that a recovery works on
-- (packages/control-plane-runtime/src/recovery.ts).
use gana_v.Prelude.{
  ltb, String, Bool, false, not, ◌&&◌, ◌||◌, Option, none, some, List, is_some, any, get_or,
}
use gana_v.Prelude.Texts.{str_eq}
use gana_v.Queue.Task.{TaskStatus, Task, same_status}
use gana_v.Queue.Lifecycle.{should_retry_task}
use gana_v.ControlPlane.Shared.{task_lease_deadline}
use text.Mathlib.Text.{find?}

-- The comparisons of the two `sort`s.
unfoldable pub due_before : Task → Task → Bool
unfolding task_lease_deadline
due_before left right =
    ltb (get_or (task_lease_deadline left) left.updated_at)
      (get_or (task_lease_deadline right) right.updated_at)

unfoldable pub updated_before : Task → Task → Bool
updated_before left right = ltb left.updated_at right.updated_at

abbrev pub includes_text : String → Option String → Bool
includes_text part none = false
includes_text part (some s) = is_some (find? s part)

abbrev pub lists : List String → String → Bool
lists ids id = any (λ i. str_eq i id) ids

-- The filter of `terminalTasks`, given the ids that were redriven and quarantined before.
unfoldable pub is_terminal : List String → List String → Task → Bool
unfolding should_retry_task
is_terminal redriven quarantined task =
    not (lists redriven task.id || lists quarantined task.id)
    && (same_status task.status TaskStatus.failed
        || same_status task.status TaskStatus.cancelled
        || (same_status task.status TaskStatus.quarantined
            && should_retry_task task
            && includes_text "expired lease" task.last_error_message))
