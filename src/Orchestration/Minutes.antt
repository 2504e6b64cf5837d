-- ===== src/Orchestration/Minutes.antt =====
-- A job runs once in a minute (packages/orchestration-sdk/src/index.ts).
use mathlib.Core.Path.{subst, subst⁻¹}
use gana_v.Prelude.{
  String, ◌≡◌, refl, ◌⊎◌, inl, inr, Bool, true, false, Option, none, some, List, [], ◌∷◌, arith,
  All, some-eq, Bool-cases, Option-cases, ◌==◌,
}
use gana_v.Prelude.Texts.{str_eq, str_eq_refl}
use gana_v.Storage.{get_by_id}
use gana_v.Storage.Laws.{get_by_id-save}
use gana_v.Queue.Task.{Time}
use gana_v.Queue.Store.{Platform}
use gana_v.Orchestration.Dispatch.{DispatchQueue}
use gana_v.Orchestration.Cron.{matches_cron_spec, floor_to_minute}
use gana_v.Orchestration.Scheduler.{
  CronWorkflowSpec, JobState, job_key, Ticking, Ticked, triggered_at, trigger, visit, run_specs,
  ticked, tick,
}

-- The job is not due in this minute, or was triggered in it.
abbrev pub IsIdle : Time → List JobState → CronWorkflowSpec → Type 0
IsIdle minute jobs spec =
    (matches_cron_spec spec.cron minute ≡ some false)
    ⊎ ((matches_cron_spec spec.cron minute ≡ some true)
        × (triggered_at (get_by_id job_key spec.id jobs) minute ≡ true))

same_minute : (minute : Time) → (minute == minute) ≡ true
same_minute minute = ground arith

-- A trigger of one job leaves no job less triggered.
trigger-triggered :
    (p : Platform) (spec : CronWorkflowSpec) (minute clock : Time) (s : Ticking) (id : String)
    → triggered_at (get_by_id job_key id s.jobs) minute ≡ true
    → triggered_at (get_by_id job_key id (trigger p spec minute clock s).jobs) minute ≡ true
trigger-triggered p spec minute clock s id h =
    rw
      (get_by_id-save job_key (record { spec_id = spec.id; last_triggered_at = some minute }) id
        s.jobs)
      (elim (Bool-cases (str_eq spec.id id)) [ inl e ↦ rw e (same_minute minute) | inr e ↦ rw e h ])

trigger_self :
    (p : Platform) (spec : CronWorkflowSpec) (minute clock : Time) (s : Ticking)
    → triggered_at (get_by_id job_key spec.id (trigger p spec minute clock s).jobs) minute ≡ true
trigger_self p spec minute clock s =
    rw
      (
        get_by_id-save job_key (record { spec_id = spec.id; last_triggered_at = some minute })
            spec.id s.jobs,
        str_eq_refl spec.id,
      )
      (same_minute minute)

-- After a visit, its job is idle, and whatever job was idle still is.
visit-IsIdle :
    (p : Platform) (spec : CronWorkflowSpec) (minute clock : Time) (o : Option Bool) (s t : Ticking)
    → matches_cron_spec spec.cron minute ≡ o
    → visit p spec minute clock o s ≡ some t
    → IsIdle minute t.jobs spec
      × ((other : CronWorkflowSpec) → IsIdle minute s.jobs other → IsIdle minute t.jobs other)
visit-IsIdle p spec minute clock none s t m e = ground arith
visit-IsIdle p spec minute clock (some false) s t m e =
    let q : s ≡ t = ground arith in (inl m, λ other i. subst (λ x. IsIdle minute x.jobs other) q i)
visit-IsIdle p spec minute clock (some true) s t m e =
    elim (Bool-cases (triggered_at (get_by_id job_key spec.id s.jobs) minute)) [
      | inl d ↦
          let q : s ≡ t = some-eq (rw d at e) in
          (
            inr (m, subst (λ x. triggered_at (get_by_id job_key spec.id x.jobs) minute ≡ true) q d),
            λ other i. subst (λ x. IsIdle minute x.jobs other) q i,
          )
      | inr d ↦
          let q : trigger p spec minute clock s ≡ t = some-eq (rw d at e) in
          (
            inr (
              m,
              subst (λ x. triggered_at (get_by_id job_key spec.id x.jobs) minute ≡ true) q
                  (trigger_self p spec minute clock s),
            ),
            λ other i. subst (λ x. IsIdle minute x.jobs other) q (kept other i),
          )
    ]
  where
    kept :
        (other : CronWorkflowSpec)
        → IsIdle minute s.jobs other
        → IsIdle minute (trigger p spec minute clock s).jobs other
    kept other (inl n) = inl n
    kept other (inr (y, h)) = inr (y, trigger-triggered p spec minute clock s other.id h)

-- After the loop, every job of its specifications is idle, and whatever job was idle still is.
run_specs-IsIdle :
    (p : Platform) (specs : List CronWorkflowSpec) (minute clock : Time) (s t : Ticking)
    → run_specs p specs minute clock s ≡ some t
    → All (IsIdle minute t.jobs) specs
      × ((other : CronWorkflowSpec) → IsIdle minute s.jobs other → IsIdle minute t.jobs other)
unfolding run_specs
run_specs-IsIdle p [] minute clock s t e =
    (tt, λ other i. subst (λ x. IsIdle minute x.jobs other) (some-eq e) i)
run_specs-IsIdle p (spec ∷ specs) minute clock s t e =
    elim (Option-cases (visit p spec minute clock (matches_cron_spec spec.cron minute) s)) [
      | inl n ↦ absurd (let f = rw n at e in ground arith)
      | inr (u, v) ↦
          let (i, k) = visit-IsIdle p spec minute clock _ s u refl v in
          let (h, l) = run_specs-IsIdle p specs minute clock u t (rw v at e) in
          ((l spec i, h), λ other j. l other (k other j))
    ]

-- Where every job is idle, the loop changes nothing.
idle-visit :
    (p : Platform) (spec : CronWorkflowSpec) (minute clock : Time) (s : Ticking)
    → IsIdle minute s.jobs spec
    → visit p spec minute clock (matches_cron_spec spec.cron minute) s ≡ some s
idle-visit p spec minute clock s (inl n) = rw n refl
idle-visit p spec minute clock s (inr (y, h)) = rw (y, h) refl

idle-run_specs :
    (p : Platform) (specs : List CronWorkflowSpec) (minute clock : Time) (s : Ticking)
    → All (IsIdle minute s.jobs) specs
    → run_specs p specs minute clock s ≡ some s
unfolding run_specs
idle-run_specs p [] minute clock s h = refl
idle-run_specs p (spec ∷ specs) minute clock s (i, h) =
    rw (idle-visit p spec minute clock s i) (idle-run_specs p specs minute clock s h)

tick-IsIdle :
    (p : Platform) (specs : List CronWorkflowSpec) (now clock : Time) (jobs : List JobState)
    (queue : DispatchQueue) (t : Ticked)
    → tick p specs now clock jobs queue ≡ some t
    → All (IsIdle (floor_to_minute now) t.jobs) specs
unfolding tick
tick-IsIdle p specs now clock jobs queue t e =
    let start : Ticking = record { enqueued = []; jobs = jobs; queue = queue } in
    elim (Option-cases (run_specs p specs (floor_to_minute now) clock start)) [
      | inl n ↦ absurd (let f = rw n at e in ground arith)
      | inr (u, v) ↦
          let q : ticked now u ≡ t = some-eq (rw v at e) in
          subst (λ x. All (IsIdle (floor_to_minute now) x.jobs) specs) q
            (run_specs-IsIdle p specs (floor_to_minute now) clock start u v).0
    ]

-- A job runs at most once in a minute. After a tick, a further tick in the same minute enqueues
-- nothing: it leaves the queue as it then is, whatever that is, and the states of the jobs, and
-- reports no due job. The specifications may share ids, and the clock may move.
pub tick_once :
    (p : Platform) (specs : List CronWorkflowSpec) (now later clock after : Time)
    (jobs : List JobState) (queue next : DispatchQueue) (t : Ticked)
    → tick p specs now clock jobs queue ≡ some t
    → floor_to_minute later ≡ floor_to_minute now
    → tick p specs later after t.jobs next
      ≡ some (ticked later (record { enqueued = []; jobs = t.jobs; queue = next }))
unfolding tick
tick_once p specs now later clock after jobs queue next t e m =
    let start : Ticking = record { enqueued = []; jobs = t.jobs; queue = next } in
    let i = tick-IsIdle p specs now clock jobs queue t e in
    rw
      (idle-run_specs p specs (floor_to_minute later) after start
        (subst⁻¹ (λ x. All (IsIdle x t.jobs) specs) m i))
      refl
