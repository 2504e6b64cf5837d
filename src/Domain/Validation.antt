-- ===== src/Domain/Validation.antt =====
-- Validations (packages/domain-core/src/entities/validation.ts). The argument of the creation differs
-- from the entity in its times, which may be missing.
use gana_v.Prelude.{
  String, Option, some, List, [], ◌∷◌, Bool, true, false, not, if◌then◌else◌, get_or,
}
use gana_v.Prelude.Texts.{join}
use gana_v.Domain.Common.{IsoDate, Outcome, done, raised}

pub data ValidationStatus : Type 0 where
  pending passed failed partial : ValidationStatus

pub data ValidationKind : Type 0 where
  fixture_result prediction_settlement parlay_settlement sandbox_regression : ValidationKind

pub data ValidationTarget : Type 0 where
  fixture task task_run ai_run prediction parlay audit_event sandbox_namespace : ValidationTarget

pub record ValidationCheck : Type 0 where
  pub code : String
  pub message : String
  pub passed : Bool

pub record Validation (Stamp : Type 0) : Type 0 where
  pub id : String
  pub target_type : ValidationTarget
  pub target_id : String
  pub kind : ValidationKind
  pub status : ValidationStatus
  pub checks : List ValidationCheck
  pub summary : String
  pub executed_at : Option IsoDate
  pub created_at : Stamp
  pub updated_at : Stamp

abbrev pub is_pending : ValidationStatus → Bool
is_pending pending = true
is_pending _ = false

-- Every status but `pending`.
pub data Verdict : Type 0 where
  as_passed as_failed as_partial : Verdict

abbrev pub verdict_status : Verdict → ValidationStatus
verdict_status as_passed = passed
verdict_status as_failed = failed
verdict_status as_partial = partial

unfoldable pub create_validation : Validation (Option IsoDate) → IsoDate → Validation IsoDate
create_validation input now =
    let timestamp = get_or input.created_at now in
    record {
      id = input.id;
      target_type = input.target_type;
      target_id = input.target_id;
      kind = input.kind;
      status = input.status;
      checks = input.checks;
      summary = input.summary;
      executed_at = input.executed_at;
      created_at = timestamp;
      updated_at = get_or input.updated_at timestamp;
    }

unfoldable pub finalize_validation :
    Validation IsoDate
    → Verdict
    → List ValidationCheck
    → String
    → IsoDate
    → Outcome (Validation IsoDate)
finalize_validation validation status checks summary executed_at =
    if not (is_pending validation.status)
    then raised (record {
      message = join ("Validation " ∷ validation.id ∷ " already finalized" ∷ []);
      code = "VALIDATION_ALREADY_FINALIZED";
    })
    else done (record validation {
      status = verdict_status status;
      checks = checks;
      summary = summary;
      executed_at = some executed_at;
      updated_at = executed_at;
    })
