-- ===== src/ControlPlane/Research/Queued.antt =====
-- What the loop of `queueEligibleResearchTasks` (packages/control-plane-runtime/src/scheduler.ts)
-- adds to its plan and to the in-memory queue.
use Prim.Native.String.{◌++◌ as concat}
use mathlib.Core.Path.{subst}
use mathlib.Core.List.{append-nil, append_assoc}
use gana_v.Prelude.{
  ◌≡◌, refl, sym, ap, ◌∙◌, ◌⊎◌, inl, inr, String, Bool, not, some, List, [], ◌∷◌, ◌++◌, map,
  Bool-cases, keep, All,
}
use gana_v.Prelude.Texts.{str_eq, str_eq-eq, str_eq_refl}
use gana_v.Numbers.{Numbers}
use gana_v.Storage.{get_by_id, save}
use gana_v.Storage.Laws.{get_by_id-save}
use gana_v.Queue.Task.{TaskStatus, TaskKind, Time, Task, task_key}
use gana_v.Queue.Lifecycle.{ok, err, Result}
use gana_v.Queue.Store.{Platform, Store, save_task}
use gana_v.Queue.Enqueue.{create_task, enqueue_id, enqueue}
use gana_v.ControlPlane.Adapter.{in_memory}
use gana_v.ControlPlane.Research.{
  research_task_id, research_input, Verdict, included, skipped, ResearchPlan, PlanningSnapshot,
  OddsClient, is_researched, research_verdict, add_skipped, add_research, visit_fixture,
  queue_eligible,
}
use text.Mathlib.TextLemmas.{append_cancel_left, append_cancel_right}

abbrev pub no_plan : ResearchPlan
no_plan = record { research_task_ids = []; included_fixture_ids = []; skipped_fixtures = [] }

-- The ids tell the fixtures apart.
research_task_id_apart :
    (manifest a b : String) → research_task_id manifest a ≡ research_task_id manifest b → a ≡ b
research_task_id_apart manifest a b e = append_cancel_right a b "" (
    append_cancel_left ":research:" (concat a "") (concat b "")
      (append_cancel_left manifest _ _ (append_cancel_left "scheduler:" _ _ e)))

skip_ids :
    (fs : List (String × String)) (id reason : String) (ids : List String)
    → map (λ (f : String × String). f.0) (fs ++ (id, reason) ∷ []) ++ ids
      ≡ map (λ (f : String × String). f.0) fs ++ id ∷ ids
skip_ids [] id reason ids = refl
skip_ids (f ∷ fs) id reason ids = ap (λ ws. f.0 ∷ ws) (skip_ids fs id reason ids)

Verdict-cases : (v : Verdict) → (v ≡ included) ⊎ ((reason : String) × (v ≡ skipped reason))
Verdict-cases included = inl refl
Verdict-cases (skipped reason) = inr (reason, refl)

module _ (p : Platform) (manifest : String) (now : Time) where
  -- A task is queued for the research of a fixture, with the fixture's id in its payload.
  pub record IsResearch (id : String) (t : Task) : Type 0 where
    pub status : t.status ≡ TaskStatus.queued
    pub kind : t.kind ≡ TaskKind.research
    pub due : t.scheduled_for ≡ some now
    pub payload : t.payload ≡ (research_input manifest id now).payload

  abbrev pub IsQueued : Store → String → Type 0
  IsQueued s id =
      (t : Task) × (get_by_id task_key (research_task_id manifest id) s.tasks ≡ some t)
      × IsResearch id t

  abbrev IsTaskOf : String → Task → Type 0
  IsTaskOf id t = (t.id ≡ research_task_id manifest id) × IsResearch id t

  enqueue-queued :
      (id : String) (s : Store)
      → (t : Task) × (enqueue p (research_input manifest id now) now s
          ≡ (ok t, record s { tasks = save task_key t s.tasks }))
        × IsTaskOf id t
  unfolding enqueue create_task save_task enqueue_id research_input
  enqueue-queued id s =
      (_, refl, (refl, record { status = refl; kind = refl; due = refl; payload = refl }))

  save-IsQueued :
      (id : String) (t : Task) (s : Store)
      → IsTaskOf id t
      → IsQueued (record s { tasks = save task_key t s.tasks }) id
  save-IsQueued id t s (same, rest) = (
    t,
    rw
        (
          get_by_id-save task_key t (research_task_id manifest id) s.tasks,
          same,
          str_eq_refl (research_task_id manifest id),
        )
        refl,
    rest,
  )

  save_keeps-IsQueued :
      (id other : String) (t : Task) (s : Store)
      → IsTaskOf id t
      → IsQueued s other
      → IsQueued (record s { tasks = save task_key t s.tasks }) other
  save_keeps-IsQueued id other t s (same, rest) (u, found, h) =
      elim (Bool-cases (str_eq t.id (research_task_id manifest other))) [
        | inl e ↦
            let q : id ≡ other =
              research_task_id_apart manifest id other (sym same ∙ str_eq-eq t.id _ e) in
            subst (IsQueued (record s { tasks = save task_key t s.tasks })) q
              (save-IsQueued id t s (same, rest))
        | inr e ↦ (
          u,
          rw (get_by_id-save task_key t (research_task_id manifest other) s.tasks, e) found,
          h,
        )
      ]

  module _ (N : Numbers) (client : OddsClient N) (snapshot : PlanningSnapshot N) where
    abbrev picks : String → Bool
    picks = is_researched N client snapshot

    -- What the loop has added to a plan for the ids that it went through.
    pub record Extends (ids : List String) (old new : ResearchPlan) (s t : Store) : Type 0 where
      pub includes : new.included_fixture_ids ≡ old.included_fixture_ids ++ keep picks ids
      pub skips :
          map (λ (f : String × String). f.0) new.skipped_fixtures
          ≡ map (λ (f : String × String). f.0) old.skipped_fixtures
            ++ keep (λ id. not (picks id)) ids
      pub tasks :
          new.research_task_ids
          ≡ old.research_task_ids ++ map (research_task_id manifest) (keep picks ids)
      pub queued : All (IsQueued t) (keep picks ids)
      pub kept : (other : String) → IsQueued s other → IsQueued t other

    abbrev pub Planned : List String → ResearchPlan → Store → Type 0
    Planned ids plan s =
        (new : ResearchPlan) × (t : Store) × (queue_eligible N (in_memory p) client snapshot
            manifest now ids plan s
          ≡ (ok new, t))
        × Extends ids plan new s t

    abbrev with_skipped : String → String → ResearchPlan → ResearchPlan
    with_skipped = add_skipped N (in_memory p) client snapshot manifest now

    abbrev with_research : String → String → ResearchPlan → ResearchPlan
    with_research = add_research N (in_memory p) client snapshot manifest now

    skip-Extends :
        (id reason : String) (ids : List String) (plan new : ResearchPlan) (s t : Store)
        → research_verdict N client snapshot id ≡ skipped reason
        → Extends ids (with_skipped id reason plan) new s t
        → Extends (id ∷ ids) plan new s t
    skip-Extends id reason ids plan new s t e x = record {
      includes = rw e x.includes;
      skips =
          rw e
            (x.skips ∙ skip_ids plan.skipped_fixtures id reason (keep (λ id. not (picks id)) ids));
      tasks = rw e x.tasks;
      queued = rw e x.queued;
      kept = x.kept;
    }

    include-Extends :
        (id : String) (u : Task) (ids : List String) (plan new : ResearchPlan) (s t : Store)
        → research_verdict N client snapshot id ≡ included
        → IsTaskOf id u
        → Extends ids
            (with_research id u.id plan)
            new
            (record s { tasks = save task_key u s.tasks })
            t
        → Extends (id ∷ ids) plan new s t
    include-Extends id u ids plan new s t e (same, h) x = record {
      includes = rw e (x.includes ∙ append_assoc plan.included_fixture_ids (id ∷ []) _);
      skips = rw e x.skips;
      tasks = rw e (
          x.tasks
          ∙ rw same (append_assoc plan.research_task_ids (research_task_id manifest id ∷ []) _));
      queued = rw e (x.kept id (save-IsQueued id u s (same, h)), x.queued);
      kept = λ other k. x.kept other (save_keeps-IsQueued id other u s (same, h) k);
    }

    visit_skipped :
        (id reason : String) (plan : ResearchPlan) (s : Store)
        → research_verdict N client snapshot id ≡ skipped reason
        → visit_fixture N
            (in_memory p)
            client
            snapshot
            manifest
            now
            id
            (research_verdict N client snapshot id)
            plan
            s
          ≡ (ok (with_skipped id reason plan), s)
    unfolding visit_fixture
    visit_skipped id reason plan s e = rw e refl

    visit_included :
        (id : String) (u : Task) (plan : ResearchPlan) (s t : Store)
        → research_verdict N client snapshot id ≡ included
        → enqueue p (research_input manifest id now) now s ≡ (ok u, t)
        → visit_fixture N
            (in_memory p)
            client
            snapshot
            manifest
            now
            id
            (research_verdict N client snapshot id)
            plan
            s
          ≡ (ok (with_research id u.id plan), t)
    unfolding visit_fixture
    visit_included id u plan s t e q = rw (e, q) refl

    abbrev continue : List String → Result ResearchPlan × Store → Result ResearchPlan × Store
    continue ids q = elim q.0 [
      | err e ↦ (err e, q.1)
      | ok next ↦ queue_eligible N (in_memory p) client snapshot manifest now ids next q.1
    ]

    pub queue_eligible-Extends :
        (ids : List String) (plan : ResearchPlan) (s : Store) → Planned ids plan s
    unfolding queue_eligible
    queue_eligible-Extends [] plan s = (
      plan,
      s,
      refl,
      record {
        includes = sym (append-nil plan.included_fixture_ids);
        skips = sym (append-nil _);
        tasks = sym (append-nil plan.research_task_ids);
        queued = tt;
        kept = λ other k. k;
      },
    )
    queue_eligible-Extends (id ∷ ids) plan s =
        elim (Verdict-cases (research_verdict N client snapshot id)) [
          | inl e ↦
              let (u, q, h) = enqueue-queued id s in
              let s' : Store = record s { tasks = save task_key u s.tasks } in
              let (new, t, f, x) = queue_eligible-Extends ids (with_research id u.id plan) s' in
              (
                new,
                t,
                ap (continue ids) (visit_included id u plan s s' e q) ∙ f,
                include-Extends id u ids plan new s t e h x,
              )
          | inr (reason, e) ↦
              let (new, t, f, x) = queue_eligible-Extends ids (with_skipped id reason plan) s in
              (
                new,
                t,
                ap (continue ids) (visit_skipped id reason plan s e) ∙ f,
                skip-Extends id reason ids plan new s t e x,
              )
        ]
