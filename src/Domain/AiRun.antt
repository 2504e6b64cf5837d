-- ===== src/Domain/AiRun.antt =====
-- Runs of AI providers (packages/domain-core/src/entities/ai-run.ts). The argument of the creation
-- differs from the entity in its times, which may be missing.
use gana_v.Prelude.{ℕ, String, Option, [], ◌∷◌, Bool, true, false, not, if◌then◌else◌, get_or}
use gana_v.Prelude.Texts.{join}
use gana_v.Domain.Common.{IsoDate, Outcome, done, raised}

pub data AiRunStatus : Type 0 where
  pending running completed failed : AiRunStatus

pub record AiRunUsage : Type 0 where
  pub prompt_tokens : ℕ
  pub completion_tokens : ℕ
  pub total_tokens : ℕ

pub record AiRun (Stamp : Type 0) : Type 0 where
  pub id : String
  pub task_id : String
  pub provider : String
  pub model : String
  pub prompt_version : String
  pub status : AiRunStatus
  pub provider_request_id : Option String
  pub usage : Option AiRunUsage
  pub output_ref : Option String
  pub error : Option String
  pub fallback_reason : Option String
  pub degraded : Option Bool
  pub created_at : Stamp
  pub updated_at : Stamp

unfoldable pub create_ai_run : AiRun (Option IsoDate) → IsoDate → AiRun IsoDate
create_ai_run input now =
    let timestamp = get_or input.created_at now in
    record {
      id = input.id;
      task_id = input.task_id;
      provider = input.provider;
      model = input.model;
      prompt_version = input.prompt_version;
      status = input.status;
      provider_request_id = input.provider_request_id;
      usage = input.usage;
      output_ref = input.output_ref;
      error = input.error;
      fallback_reason = input.fallback_reason;
      degraded = input.degraded;
      created_at = timestamp;
      updated_at = get_or input.updated_at timestamp;
    }

-- `pending` or `running`
abbrev pub is_unsettled : AiRunStatus → Bool
is_unsettled pending = true
is_unsettled running = true
is_unsettled _ = false

pub data AiSettlement : Type 0 where
  as_completed as_failed : AiSettlement

abbrev pub ai_settlement_status : AiSettlement → AiRunStatus
ai_settlement_status as_completed = completed
ai_settlement_status as_failed = failed

-- A property of `...details`: left as it was where the details do not have it, and replaced where
-- they do, by `undefined` too.
pub data Detail (A : Type 0) : Type 0 where
  absent : Detail A
  given : Option A → Detail A

abbrev pub spread : {A : Type 0} → Detail A → Option A → Option A
spread absent old = old
spread (given new) old = new

pub record AiRunDetails : Type 0 where
  pub provider_request_id : Detail String
  pub usage : Detail AiRunUsage
  pub output_ref : Detail String
  pub error : Detail String
  pub fallback_reason : Detail String
  pub degraded : Detail Bool

unfoldable pub settle_ai_run :
    AiRun IsoDate → AiSettlement → AiRunDetails → IsoDate → Outcome (AiRun IsoDate)
settle_ai_run run status details updated_at =
    if not (is_unsettled run.status)
    then raised (record {
      message = join ("AI run " ∷ run.id ∷ " already settled" ∷ []);
      code = "AI_RUN_ALREADY_SETTLED";
    })
    else done (record run {
      provider_request_id = spread details.provider_request_id run.provider_request_id;
      usage = spread details.usage run.usage;
      output_ref = spread details.output_ref run.output_ref;
      error = spread details.error run.error;
      fallback_reason = spread details.fallback_reason run.fallback_reason;
      degraded = spread details.degraded run.degraded;
      status = ai_settlement_status status;
      updated_at = updated_at;
    })
