-- ===== src/Policy/Promotion.antt =====
-- The promotion of a sandbox: `evaluateSandboxPromotion` (packages/policy-engine/src/index.ts).
use gana_v.Prelude.{String, List, [], ◌∷◌, if◌then◌else◌, any}
use gana_v.Policy.Gates.{GateStatus, Gate, PromotionGateName, blocks, warns}

-- A gate without its name.
pub record Evidence : Type 0 where
  pub status : GateStatus
  pub detail : String

pub record PromotionInput : Type 0 where
  pub certification : Evidence
  pub contract_coverage : Evidence
  pub cron_workflows : Evidence
  pub publication_safety : Evidence
  pub capability_isolation : Evidence
  pub manual_qa : Evidence

pub data PromotionStatus : Type 0 where
  blocked review_required promotable : PromotionStatus

pub record PromotionReport : Type 0 where
  pub status : PromotionStatus
  pub summary : String
  pub gates : List (Gate PromotionGateName)

abbrev named : PromotionGateName → Evidence → Gate PromotionGateName
named name evidence = record { name = name; status = evidence.status; detail = evidence.detail }

abbrev promotion_summary : PromotionStatus → String
promotion_summary promotable = "Sandbox promotion evidence is promotable."
promotion_summary review_required = "Sandbox promotion evidence requires review before promotion."
promotion_summary blocked = "Sandbox promotion evidence is blocked until failing gates are cleared."

unfoldable pub promotion_gates : PromotionInput → List (Gate PromotionGateName)
promotion_gates input =
    named PromotionGateName.sandbox_certification input.certification
    ∷ named PromotionGateName.contract_coverage input.contract_coverage
    ∷ named PromotionGateName.cron_workflows input.cron_workflows
    ∷ named PromotionGateName.publication_safety input.publication_safety
    ∷ named PromotionGateName.capability_isolation input.capability_isolation
    ∷ named PromotionGateName.manual_qa input.manual_qa
    ∷ []

unfoldable pub promotion_status : List (Gate PromotionGateName) → PromotionStatus
promotion_status gates =
    if any blocks gates then blocked else if any warns gates then review_required else promotable

unfoldable pub evaluate_sandbox_promotion : PromotionInput → PromotionReport
evaluate_sandbox_promotion input =
    let gates = promotion_gates input in
    let status = promotion_status gates in
    record { status = status; summary = promotion_summary status; gates = gates }
