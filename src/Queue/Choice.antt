-- ===== src/Queue/Choice.antt =====
-- Which task a claim takes (packages/queue-adapters/src/index.ts).
use mathlib.Core.Path.{ap₂}
use gana_v.Prelude.{
  ◌≡◌, refl, sym, ◌∙◌, ℕ, suc, Bool, true, false, ◌&&◌, ◌||◌, leb, ltb, ◌==◌, Option, none, some,
  List, arith, All, All-map,
}
use gana_v.Prelude.Sort.{IsOrder}
use gana_v.Prelude.Choose
use gana_v.Queue.Task.{TaskKind, Time, Task, same_kind}
use gana_v.Queue.Select.{queued_before, is_candidate, next_ready_task}

-- The comparison of queued tasks is an order, up to ties.
pub queued_before-IsOrder : IsOrder queued_before
unfolding queued_before
queued_before-IsOrder = record { asym = λ x y h. ground arith; trans = λ x y z h k. ground arith }

-- The task may be taken now: it is of the kind, where one is given, and due by `now`, where it is
-- scheduled.
abbrev pub may_run : Option TaskKind → Time → Task → Bool
may_run kind now u =
    elim kind [ none ↦ true | some k ↦ same_kind u.kind k ]
    && elim u.scheduled_for [ none ↦ true | some at ↦ leb at now ]

-- The time at which a task is due, where one that is not scheduled comes before every other.
abbrev pub due : Task → ℕ
due u = elim u.scheduled_for [ none ↦ 0 | some at ↦ suc at ]

-- The earlier time due, then the higher priority, then the earlier creation.
abbrev pub comes_before : Task → Task → Bool
comes_before u t =
    ltb (due u) (due t)
    || ((due u == due t)
        && (ltb t.priority u.priority
            || ((u.priority == t.priority) && ltb u.created_at t.created_at)))

-- No candidate among `tasks` comes before `t`.
abbrev pub IsFirst : List Task → Option TaskKind → Time → Task → Type 0
IsFirst tasks kind now t = All (λ u. (may_run kind now u && comes_before u t) ≡ false) tasks

queued_before-comes_before : (u t : Task) → queued_before u t ≡ comes_before u t
unfolding queued_before
queued_before-comes_before u t = ground arith

candidate-may_run :
    (kind : Option TaskKind) (now : Time) (u : Task) → is_candidate kind now u ≡ may_run kind now u
unfolding is_candidate
candidate-may_run none now u = refl
candidate-may_run (some k) now u = refl

-- The head of the sorted candidates is a candidate, and the first of them.
pub next_ready_task-IsFirst :
    (tasks : List Task) (kind : Option TaskKind) (now : Time) (t : Task)
    → next_ready_task tasks kind now ≡ some t
    → (may_run kind now t ≡ true) × IsFirst tasks kind now t
unfolding next_ready_task
next_ready_task-IsFirst tasks kind now t e =
    let (c, f) =
      Choose.chosen-IsFirst queued_before (is_candidate kind now) tasks t queued_before-IsOrder e in
    (
      sym (candidate-may_run kind now t) ∙ c,
      All-map (λ u. (is_candidate kind now u && queued_before u t) ≡ false)
          (λ u. (may_run kind now u && comes_before u t) ≡ false)
          (λ u h.
            ap₂ (λ a b. a && b) (sym (candidate-may_run kind now u))
              (sym (queued_before-comes_before u t))
            ∙ h)
          tasks f,
    )

-- Where there is none, no task is a candidate.
pub next_ready_task-none :
    (tasks : List Task) (kind : Option TaskKind) (now : Time)
    → next_ready_task tasks kind now ≡ none
    → All (λ u. may_run kind now u ≡ false) tasks
unfolding next_ready_task
next_ready_task-none tasks kind now e =
    All-map (λ u. is_candidate kind now u ≡ false) (λ u. may_run kind now u ≡ false)
      (λ u h. sym (candidate-may_run kind now u) ∙ h) tasks
      (Choose.chosen-none queued_before (is_candidate kind now) tasks e)
