-- ===== src/ControlPlane/Scheduler/Once.antt =====
-- A specification is triggered at most once in a minute
-- (packages/control-plane-runtime/src/scheduler.ts), over any queue.
use mathlib.Core.Path.{subst}
use gana_v.Prelude.{
  String, ◌≡◌, refl, sym, ◌⊎◌, inl, inr, Bool, true, false, Option, none, some, List, [], ◌∷◌,
  arith, All, some-eq, Bool-cases, Option-cases, ◌==◌,
}
use gana_v.Prelude.Texts.{str_eq, str_eq_refl}
use gana_v.Storage.{get_by_id}
use gana_v.Storage.Laws.{get_by_id-save}
use gana_v.Queue.Task.{Time, Task}
use gana_v.Queue.Lifecycle.{Result, ok, err, Result-cases}
use gana_v.Queue.Store.{Platform}
use gana_v.Orchestration.Cron.{matches_cron_spec}
use gana_v.Orchestration.Scheduler.{CronWorkflowSpec}
use gana_v.ControlPlane.Adapter.{TaskQueue}
use gana_v.ControlPlane.Scheduler.{
  SchedulerCursor, cursor_key, scheduler_cursor_id, CronProgress, is_minute, last_trigger,
  note_cursor, create_scheduler_cursor, cron_input, build_triggered_envelope, Desk, Round,
  cursor_of, triggered_cursor, after_enqueue, trigger, passed, visit, run_cron_specs,
}

-- The specification is not due in this minute, or its cursor stands at it.
module _ (minute : Time) where
  abbrev pub is_done : String → List SchedulerCursor → Bool
  is_done id cursors = is_minute (last_trigger (get_by_id cursor_key id cursors)) minute

  abbrev pub IsIdle : List SchedulerCursor → CronWorkflowSpec → Type 0
  IsIdle cursors spec =
      (matches_cron_spec spec.cron minute ≡ some false)
      ⊎ ((matches_cron_spec spec.cron minute ≡ some true)
          × (is_done (scheduler_cursor_id spec.id) cursors ≡ true))

  -- What was idle still is.
  abbrev pub Lasts : List SchedulerCursor → List SchedulerCursor → Type 0
  Lasts old new = (other : CronWorkflowSpec) → IsIdle old other → IsIdle new other

same_minute : (minute : Time) → (minute == minute) ≡ true
same_minute minute = ground arith

module _ (p : Platform) (q : TaskQueue) (minute now clock : Time) (manifest : String) where
  -- A trigger that returns moves one cursor to the minute.
  after_enqueue-is_done :
      (spec : CronWorkflowSpec) (g : CronProgress) (cursors : List SchedulerCursor)
      (r : Result Task × q.State) (id : String)
      → (after_enqueue p q minute now clock manifest spec g cursors r).result ≡ ok tt
      → (str_eq (scheduler_cursor_id spec.id) id ≡ true) ⊎ (is_done minute id cursors ≡ true)
      → is_done minute id
          (after_enqueue p q minute now clock manifest spec g cursors r).desk.cursors
        ≡ true
  unfolding create_scheduler_cursor
  after_enqueue-is_done spec g cursors (err e, s) id ran h = ground arith
  after_enqueue-is_done spec g cursors (ok task, s) id ran h =
      rw (get_by_id-save cursor_key (triggered_cursor p minute clock manifest spec) id cursors)
        (elim (Bool-cases (str_eq (scheduler_cursor_id spec.id) id)) [
          | inl e ↦ rw e (same_minute minute)
          | inr e ↦ rw e (elim h [ inl f ↦ absurd (ground arith) | inr f ↦ f ])
        ])

  trigger-is_done :
      (spec : CronWorkflowSpec) (g : CronProgress) (d : Desk q) (id : String)
      → (trigger p q minute now clock manifest spec g d).result ≡ ok tt
      → (str_eq (scheduler_cursor_id spec.id) id ≡ true) ⊎ (is_done minute id d.cursors ≡ true)
      → is_done minute id (trigger p q minute now clock manifest spec g d).desk.cursors ≡ true
  trigger-is_done spec g d id ran h =
      after_enqueue-is_done spec g d.cursors
        (q.enqueue (cron_input manifest (build_triggered_envelope p spec minute manifest)) now
          d.queue)
        id ran h

  trigger-Lasts :
      (spec : CronWorkflowSpec) (g : CronProgress) (d : Desk q)
      → (trigger p q minute now clock manifest spec g d).result ≡ ok tt
      → Lasts minute d.cursors (trigger p q minute now clock manifest spec g d).desk.cursors
  trigger-Lasts spec g d ran other (inl n) = inl n
  trigger-Lasts spec g d ran other (inr (y, h)) =
      inr (y, trigger-is_done spec g d (scheduler_cursor_id other.id) ran (inr h))

  visit-IsIdle :
      (spec : CronWorkflowSpec) (o : Option Bool) (g : CronProgress) (d : Desk q) (r : Round q)
      → matches_cron_spec spec.cron minute ≡ o
      → visit p q minute now clock manifest spec o g d ≡ some r
      → r.result ≡ ok tt
      → IsIdle minute r.desk.cursors spec × Lasts minute d.cursors r.desk.cursors
  visit-IsIdle spec none g d r m e ran = ground arith
  visit-IsIdle spec (some false) g d r m e ran =
      let f = some-eq e in
      (inl m, subst (λ (x : Round q). Lasts minute d.cursors x.desk.cursors) f (λ other i. i))
  visit-IsIdle spec (some true) g d r m e ran =
      elim (Bool-cases (is_done minute (scheduler_cursor_id spec.id) d.cursors)) [
        | inl t ↦
            let f = some-eq (rw t at e) in
            (
              subst (λ (x : Round q). IsIdle minute x.desk.cursors spec) f (inr (m, t)),
              subst (λ (x : Round q). Lasts minute d.cursors x.desk.cursors) f (λ other i. i),
            )
        | inr t ↦
            let f = some-eq (rw t at e) in
            let noted = note_cursor spec.id (cursor_of spec d.cursors) g in
            let done = subst (λ (x : Round q). x.result ≡ ok tt) (sym f) ran in
            (
              subst (λ (x : Round q). IsIdle minute x.desk.cursors spec) f
                  (inr (m, trigger-is_done spec noted d _ done (inl (str_eq_refl _)))),
              subst (λ (x : Round q). Lasts minute d.cursors x.desk.cursors) f
                  (trigger-Lasts spec noted d done),
            )
      ]

  -- After the loop every specification is idle, and so is whatever was idle before.
  pub run_cron_specs-IsIdle :
      (specs : List CronWorkflowSpec) (g : CronProgress) (d : Desk q) (r : Round q)
      → run_cron_specs p q minute now clock manifest specs g d ≡ some r
      → r.result ≡ ok tt
      → All (IsIdle minute r.desk.cursors) specs × Lasts minute d.cursors r.desk.cursors
  unfolding run_cron_specs
  run_cron_specs-IsIdle [] g d r e ran = (
    tt,
    subst (λ (x : Round q). Lasts minute d.cursors x.desk.cursors) (some-eq e) (λ other i. i),
  )
  run_cron_specs-IsIdle (spec ∷ specs) g d r e ran =
      elim (Option-cases
        (visit p q minute now clock manifest spec (matches_cron_spec spec.cron minute) g d)) [
          | inl n ↦ absurd (let f = rw n at e in ground arith)
          | inr (x, v) ↦ elim (Result-cases x.result) [
            | inl (bad, b) ↦
                let f : x ≡ r = some-eq (rw (v, b) at e) in
                absurd (
                  let c = subst (λ (y : Round q). y.result ≡ ok tt) (sym f) ran in
                  ground (arith, b, c))
            | inr (unit, b) ↦
                let (i, k) = visit-IsIdle spec _ g d x refl v b in
                let (h, l) = run_cron_specs-IsIdle specs x.progress x.desk r (rw (v, b) at e) ran in
                ((l spec i, h), λ other j. l other (k other j))
          ]
        ]

  -- Where every specification is idle, the loop enqueues nothing.
  idle_visit :
      (spec : CronWorkflowSpec) (g : CronProgress) (d : Desk q)
      → IsIdle minute d.cursors spec
      → visit p q minute now clock manifest spec (matches_cron_spec spec.cron minute) g d
        ≡ some (
            passed p q minute now clock manifest
              (note_cursor spec.id (cursor_of spec d.cursors) g)
              d)
  idle_visit spec g d (inl n) = rw n refl
  idle_visit spec g d (inr (y, h)) = rw (y, h) refl

  pub run_cron_specs_idle :
      (specs : List CronWorkflowSpec) (g : CronProgress) (d : Desk q)
      → All (IsIdle minute d.cursors) specs
      → (h : CronProgress) × (run_cron_specs p q minute now clock manifest specs g d
          ≡ some (passed p q minute now clock manifest h d))
        × (h.cron_task_ids ≡ g.cron_task_ids)
  unfolding run_cron_specs
  run_cron_specs_idle [] g d i = (g, refl, refl)
  run_cron_specs_idle (spec ∷ specs) g d (i, is) =
      let (h, e, f) =
        run_cron_specs_idle specs (note_cursor spec.id (cursor_of spec d.cursors) g) d is in
      (h, rw (idle_visit spec g d i) e, f)
