-- ===== src/Domain/Stages.antt =====
-- What the operations on the workflow of a fixture change
-- (packages/domain-core/src/entities/fixture-workflow.ts), and what an operator's choice does to the
-- coverage of the fixture (packages/policy-engine/src/index.ts).
use gana_v.Prelude.{
  ◌+◌, String, ◌≡◌, refl, sym, ap, ◌∙◌, Option, none, some, Bool, true, false, not, ◌&&◌, arith,
  if◌then◌else◌, get_or, is_some, Bool-cases, inl, inr,
}
use gana_v.Prelude.Texts.{str_eq}
use gana_v.Numbers.{Numbers, integer}
use gana_v.Policy.Coverage.{CoverageInput, forced_in, forced_out, rejected, is_rejected}
use gana_v.Policy.Coverage
use gana_v.Policy.Scope.{
  override_of, manual_selection_of, is_tracked, evaluate_fixture_coverage_scope,
}
use gana_v.Policy.Eligibility.{coverage-decision}
use gana_v.Domain.Common.{IsoDate, Outcome, done, raised, is_done}
use gana_v.Domain.Workflow.{
  Stage, ingestion, odds, enrichment, candidate, prediction, parlay, validation, StageStatus,
  Statuses, StageTimes, status_of, set_status, time_of, set_time, Entity, StageInput,
  is_invalid_odd, transition_stage, apply_manual_selection, apply_selection_override,
}

abbrev pub same_stage : Stage → Stage → Bool
same_stage ingestion ingestion = true
same_stage odds odds = true
same_stage enrichment enrichment = true
same_stage candidate candidate = true
same_stage prediction prediction = true
same_stage parlay parlay = true
same_stage validation validation = true
same_stage _ _ = false

-- Stages that share a time.
abbrev pub shares_time : Stage → Stage → Bool
shares_time ingestion odds = true
shares_time odds ingestion = true
shares_time enrichment candidate = true
shares_time candidate enrichment = true
shares_time s t = same_stage s t

status_of-set_status :
    (other stage : Stage) (v : StageStatus) (s : Statuses)
    → status_of other (set_status stage v s)
      ≡ (if same_stage other stage then v else status_of other s)
unfolding status_of set_status
status_of-set_status other stage v s = ground arith

time_of-set_time :
    (other stage : Stage) (v : IsoDate) (t : StageTimes)
    → time_of other (set_time stage v t)
      ≡ (if shares_time other stage then some v else time_of other t)
unfolding time_of set_time
time_of-set_time other stage v t = ground arith

module _ (N : Numbers) where
  -- A minimum for the odds that is above 0, or none.
  abbrev pub is_valid_odd : Option N.Num → Bool
  is_valid_odd none = true
  is_valid_odd (some odd) = not (N.leb odd (integer N 0))

  valid : (o : Option N.Num) → not (is_invalid_odd N o) ≡ is_valid_odd o
  unfolding is_invalid_odd
  valid none = refl
  valid (some odd) = refl

  -- What a transition makes of a workflow, where it returns, and the code of its error.
  abbrev pub Changes :
      Entity N → Stage → Stage → StageInput N → IsoDate → Outcome (Entity N) → Type 0
  Changes w stage other input now (done u) =
      (status_of other u.statuses
        ≡ (if same_stage other stage then input.status else status_of other w.statuses))
      × (time_of other u.times ≡ (
          if shares_time other stage
          then some (get_or input.occurred_at now)
          else time_of other w.times))
      × (u.error_count ≡ w.error_count + (if is_some input.error_message then 1 else 0))
      × (u.manual_selection_status ≡ w.manual_selection_status)
      × (u.selection_override ≡ w.selection_override)
  Changes w stage other input now (raised e) = e.code ≡ "WORKFLOW_INVALID_MIN_ODD"

  -- A transition of a stage returns exactly where it brings no minimum for the odds or one that is
  -- above 0, and otherwise throws "WORKFLOW_INVALID_MIN_ODD". Where it returns, it sets the status
  -- of that stage and no other, and the time of that stage, which "ingestion" shares with "odds" and
  -- "enrichment" with "candidate", and no other time; it counts an error exactly where it brings a
  -- message; and the operator's choices stay.
  pub transition_stage-Changes :
      (w : Entity N) (stage other : Stage) (input : StageInput N) (now : IsoDate)
      → (is_done (transition_stage N w stage input now) ≡ is_valid_odd input.min_detected_odd)
        × Changes w stage other input now (transition_stage N w stage input now)
  unfolding transition_stage
  transition_stage-Changes w stage other input now =
      elim (Bool-cases (is_invalid_odd N input.min_detected_odd)) [
        | inl t ↦ rw t (sym (ap not t) ∙ valid input.min_detected_odd, refl)
        | inr t ↦ rw t (
          sym (ap not t) ∙ valid input.min_detected_odd,
          (
            status_of-set_status other stage input.status w.statuses,
            time_of-set_time other stage (get_or input.occurred_at now) w.times,
            ground arith,
            refl,
            refl,
          ),
        )
      ]

  -- The properties of a workflow that the coverage reads.
  abbrev pub seen_by_policy : Entity N → Coverage.Workflow N
  seen_by_policy w = record {
    selection_override = some w.selection_override;
    manual_selection_status = some w.manual_selection_status;
    min_detected_odd = w.min_detected_odd;
  }

  abbrev pub covered : CoverageInput N → Entity N → Bool
  covered input w =
      (evaluate_fixture_coverage_scope N
        (record input { workflow = some (seen_by_policy w) })).included

  -- An operator's choice decides the coverage, whatever the policies and the rest of the workflow
  -- are: once forced out or rejected, a fixture is not included; once forced in, it is included
  -- exactly where its status is "scheduled" and the workflow does not reject it.
  pub choice-covered :
      (input : CoverageInput N) (w : Entity N) (by : String) (reason : Option String)
      (occurred_at : Option IsoDate) (now : IsoDate)
      → (covered input (
            apply_selection_override N w
              (record { mode = forced_out; reason = reason; occurred_at = occurred_at })
              now)
          ≡ false)
        × (covered input (
              apply_manual_selection N w
                (record {
                  status = rejected;
                  selected_by = by;
                  reason = reason;
                  occurred_at = occurred_at;
                })
                now)
            ≡ false)
        × (covered input (
              apply_selection_override N w
                (record { mode = forced_in; reason = reason; occurred_at = occurred_at })
                now)
            ≡ (str_eq input.fixture.status "scheduled"
                && not (is_rejected w.manual_selection_status)))
  unfolding apply_selection_override apply_manual_selection override_of manual_selection_of
      is_tracked
  choice-covered input w by reason occurred_at now =
      let decide : (x : Entity N) → _ =
        λ x. (coverage-decision N (record input { workflow = some (seen_by_policy x) })).0 in
      (
        decide (
              apply_selection_override N w
                (record { mode = forced_out; reason = reason; occurred_at = occurred_at }) now)
            ∙ ground arith,
        decide (
              apply_manual_selection N w
                (record {
                  status = rejected;
                  selected_by = by;
                  reason = reason;
                  occurred_at = occurred_at;
                })
                now)
            ∙ ground arith,
        decide (
              apply_selection_override N w
                (record { mode = forced_in; reason = reason; occurred_at = occurred_at }) now)
            ∙ ground arith,
      )
