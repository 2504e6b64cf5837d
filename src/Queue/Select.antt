-- ===== src/Queue/Select.antt =====
-- Which queued task is next (packages/queue-adapters/src/index.ts): the comparison of queued tasks,
-- readiness, and `nextReadyTask`.
use gana_v.Prelude.{
  Bool, true, false, ◌&&◌, Option, none, some, List, leb, ltb, ◌==◌, if◌then◌else◌, keep, head,
}
use gana_v.Prelude.Sort.{sort}
use gana_v.Queue.Task.{TaskKind, Time, Task, same_kind}

-- The order of `scheduledFor ?? ""`: no time comes before every time.
abbrev pub scheduled_before : Option Time → Option Time → Bool
scheduled_before none none = false
scheduled_before none (some t) = true
scheduled_before (some s) none = false
scheduled_before (some s) (some t) = ltb s t

abbrev pub same_schedule : Option Time → Option Time → Bool
same_schedule none none = true
same_schedule (some s) (some t) = s == t
same_schedule _ _ = false

-- `compareQueuedReadyTasks(left, right) < 0`
unfoldable pub queued_before : Task → Task → Bool
queued_before left right =
    if same_schedule left.scheduled_for right.scheduled_for
    then if left.priority == right.priority
      then ltb left.created_at right.created_at
      else ltb right.priority left.priority
    else scheduled_before left.scheduled_for right.scheduled_for

unfoldable pub is_task_ready : Task → Time → Bool
is_task_ready task now = elim task.scheduled_for [ none ↦ true | some at ↦ leb at now ]

-- The filter of `nextReadyTask`; `none` stands for a missing kind, which every kind meets.
unfoldable pub is_candidate : Option TaskKind → Time → Task → Bool
unfolding is_task_ready
is_candidate none now task = is_task_ready task now
is_candidate (some kind) now task = same_kind task.kind kind && is_task_ready task now

unfoldable pub next_ready_task : List Task → Option TaskKind → Time → Option Task
unfolding is_candidate queued_before sort
next_ready_task tasks kind now = head (sort queued_before (keep (is_candidate kind now) tasks))
