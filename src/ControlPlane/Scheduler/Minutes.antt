-- ===== src/ControlPlane/Scheduler/Minutes.antt =====
-- Two scheduler cycles in one minute (packages/control-plane-runtime/src/scheduler.ts).
use mathlib.Core.Path.{subst, subst⁻¹}
use gana_v.Prelude.{
  String, ◌≡◌, refl, sym, ap, ◌∙◌, inl, inr, Option, some, List, [], arith, All, some-eq,
  Option-cases, get_or,
}
use gana_v.Numbers.{Numbers}
use gana_v.Storage.{save}
use gana_v.Queue.Task.{Time}
use gana_v.Queue.Lifecycle.{ok, Result-cases, Result, err}
use gana_v.Queue.Store.{Platform}
use gana_v.Orchestration.Cron.{floor_to_minute}
use gana_v.Orchestration.Scheduler.{CronWorkflowSpec}
use gana_v.ControlPlane.Adapter.{TaskQueue}
use gana_v.ControlPlane.Shared.{dedupe_strings}
use gana_v.ControlPlane.Cycle.{succeeded, cycle_key, create_automation_cycle, update_cycle}
use gana_v.ControlPlane.Research.{ResearchPlan, PlanningSnapshot, OddsClient, queue_eligible}
use gana_v.ControlPlane.Research.Queued.{no_plan}
use gana_v.ControlPlane.Scheduler.{
  SchedulerCursor, CronProgress, no_progress, Desk, Round, passed, run_cron_specs,
}
use gana_v.ControlPlane.Scheduler.Cycle.{
  SchedulerMetadata, planned, stopped, SchedulerRecord, SchedulerOutcome, after_research,
  after_cron, started_cycle, succeeded_cycle, failed_cycle, fixture_ids_of, run_scheduler_cycle,
}
use gana_v.ControlPlane.Scheduler.Once.{IsIdle, run_cron_specs-IsIdle, run_cron_specs_idle}

abbrev pub cron_tasks_of : Option SchedulerMetadata → List String
cron_tasks_of (some (planned id ids plan g)) = g.cron_task_ids
cron_tasks_of (some (stopped id g)) = g.cron_task_ids
cron_tasks_of _ = []

-- The ids of the tasks that the record of a cycle says its cron part has enqueued.
abbrev pub cron_tasks : SchedulerRecord → List String
cron_tasks cycle = cron_tasks_of cycle.metadata

module _ (p : Platform) (q : TaskQueue) (now clock : Time) (id : String) (started : SchedulerRecord)
    (asked : List String) (cycles : List SchedulerRecord) where
  -- What the plan of research leaves of the cron part.
  after_research_keeps :
      (g : CronProgress) (cursors : List SchedulerCursor) (r : Result ResearchPlan × q.State)
      → ((after_research p now clock id q started asked g cursors cycles r).desk.cursors ≡ cursors)
        × (cron_tasks (after_research p now clock id q started asked g cursors cycles r).cycle
            ≡ g.cron_task_ids)
  unfolding succeeded_cycle failed_cycle update_cycle create_automation_cycle
  after_research_keeps g cursors (ok plan, s) = (refl, refl)
  after_research_keeps g cursors (err e, s) = (refl, refl)

  module _ (N : Numbers) (client : OddsClient N) (snapshot : PlanningSnapshot N) where
    -- A cycle that has succeeded has finished its cron part.
    after_cron_succeeded :
        (r : Round q)
        → (after_cron p now clock id q N client snapshot started asked cycles r).cycle.status
          ≡ succeeded
        → (r.result ≡ ok tt)
          × ((after_cron p now clock id q N client snapshot started asked cycles r).desk.cursors
              ≡ r.desk.cursors)
    unfolding failed_cycle update_cycle create_automation_cycle
    after_cron_succeeded r e = elim (Result-cases r.result) [
      | inl (bad, b) ↦ absurd (let f = rw b at e in ground arith)
      | inr (unit, b) ↦ (
        b,
        rw b
            (after_research_keeps r.progress r.desk.cursors
              (queue_eligible N q client snapshot id now asked no_plan r.desk.queue)).0,
      )
    ]

-- A specification of a cron task is triggered at most once in a minute. After a scheduler cycle that
-- has succeeded, a further cycle at a time of the same minute, over any state of any queue and any
-- snapshot of the fixtures, returns an outcome, enqueues no cron task by its record, whether it
-- succeeds or fails, and leaves the cursors as they are.
pub scheduler_once :
    (p : Platform) (q : TaskQueue) (N : Numbers) (client client' : OddsClient N)
    (snapshot snapshot' : PlanningSnapshot N) (specs : List CronWorkflowSpec) (names : List String)
    (owner owner' id id' : String) (fixture_ids fixture_ids' : Option (List String))
    (now later clock clock' : Time) (d : Desk q) (state : q.State)
    (cycles cycles' : List SchedulerRecord) (a : SchedulerOutcome q)
    → run_scheduler_cycle p now clock id q N client snapshot specs names owner fixture_ids d cycles
      ≡ some a
    → a.cycle.status ≡ succeeded
    → floor_to_minute later ≡ floor_to_minute now
    → (b : SchedulerOutcome q) × (run_scheduler_cycle p later clock' id' q N client' snapshot' specs
          names owner' fixture_ids'
          (record { queue = state; cursors = a.desk.cursors })
          cycles'
        ≡ some b)
      × (cron_tasks b.cycle ≡ [])
      × (b.desk.cursors ≡ a.desk.cursors)
unfolding run_scheduler_cycle
scheduler_once p q N client client' snapshot snapshot' specs names owner owner' id id' fixture_ids
      fixture_ids' now later clock clock' d state cycles cycles' a e succeeded_first same =
    elim (Option-cases
      (run_cron_specs p q (floor_to_minute now) now clock id specs no_progress d)) [
        | inl n ↦ absurd (let f = rw n at e in ground arith)
        | inr (r, v) ↦
            let f = some-eq (rw v at e) in
            let asked = dedupe_strings (get_or fixture_ids (fixture_ids_of snapshot.fixtures)) in
            let started = started_cycle p now clock id owner names asked in
            let (ran, kept) =
              after_cron_succeeded p q now clock id started asked (save cycle_key started cycles) N
                client snapshot r
                (subst (λ (x : SchedulerOutcome q). x.cycle.status ≡ succeeded) (sym f)
                  succeeded_first) in
            let idle =
              (run_cron_specs-IsIdle p q (floor_to_minute now) now clock id specs no_progress d r v
                ran).0 in
            let cursors : r.desk.cursors ≡ a.desk.cursors =
              sym kept ∙ ap (λ (x : SchedulerOutcome q). x.desk.cursors) f in
            let idle_later =
              subst⁻¹ (λ minute. All (IsIdle minute a.desk.cursors) specs) same
                (subst (λ cs. All (IsIdle (floor_to_minute now) cs) specs) cursors idle) in
            let (h, run, none_new) =
              run_cron_specs_idle p q (floor_to_minute later) later clock' id' specs no_progress
                (record { queue = state; cursors = a.desk.cursors }) idle_later in
            let asked' = dedupe_strings (get_or fixture_ids' (fixture_ids_of snapshot'.fixtures)) in
            let started' = started_cycle p later clock' id' owner' names asked' in
            let d' : Desk q = record { queue = state; cursors = a.desk.cursors } in
            let research = queue_eligible N q client' snapshot' id' later asked' no_plan state in
            let keeps =
              after_research_keeps p q later clock' id' started' asked'
                (save cycle_key started' cycles') h a.desk.cursors research in
            (
              after_cron p later clock' id' q N client' snapshot' started' asked'
                  (save cycle_key started' cycles')
                  (passed p q (floor_to_minute later) later clock' id' h d'),
              rw run refl,
              keeps.1 ∙ none_new,
              keeps.0,
            )
      ]
