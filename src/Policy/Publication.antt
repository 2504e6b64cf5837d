-- ===== src/Policy/Publication.antt =====
-- When the policy lets a cycle publish, and when a sandbox may be promoted
-- (packages/policy-engine/src/index.ts).
use gana_v.Prelude.{
  ◌+◌, ◌≡◌, refl, ◌↔◌, Bool, true, false, not, ◌&&◌, ◌||◌, List, [], ◌∷◌, arith, ltb, keep, length,
  any, All,
}
use gana_v.Numbers.{Numbers}
use gana_v.Policy.Gates.{
  Backfill, is_needed, is_healthy, pass, ready, blocked, PromotionGateName, Gate, blocks, warns,
  OperationalInput, Traceability, health_gate, retries_gate, backfills_gate, traceability_gate,
  operational_status, evaluate_operational_policy,
}
use gana_v.Policy.Promotion.{
  PromotionInput, PromotionStatus, promotable, promotion_gates, promotion_status,
  evaluate_sandbox_promotion,
}

keep-any :
    (bs : List Backfill)
    → ltb 0 (length (keep (λ b. is_needed b.status) bs)) ≡ any (λ b. is_needed b.status) bs
keep-any [] = refl
keep-any (b ∷ bs) = ground (arith, keep-any bs)

module _ (N : Numbers) where
  abbrev pub is_weak : Traceability N → Bool
  is_weak t =
      N.ltb t.task_trace_coverage_rate (N.literal 8 1)
      || N.ltb t.ai_run_request_coverage_rate (N.literal 5 1)

  -- The operator may publish exactly where no retry is exhausted, no task is quarantined and no
  -- backfill is needed. The report is "blocked" exactly where publishing is not allowed, and "ready"
  -- exactly where it is allowed, the health is "ok", nothing is retrying or failed, and both rates of
  -- traceability reach their thresholds.
  pub policy-publishes :
      (input : OperationalInput N)
      → ((evaluate_operational_policy N input).publish_allowed ≡ (
          not (ltb 0 input.retries.exhausted)
          && not (ltb 0 input.retries.quarantined)
          && not (any (λ b. is_needed b.status) input.backfills)))
        × (((evaluate_operational_policy N input).status ≡ blocked)
            ↔ ((evaluate_operational_policy N input).publish_allowed ≡ false))
        × (((evaluate_operational_policy N input).status ≡ ready) ↔ (
            (evaluate_operational_policy N input).publish_allowed
              && (is_healthy input.health.status
                  && (not (ltb 0 (input.retries.retrying + input.retries.failed))
                      && not (is_weak input.traceability)))
            ≡ true))
  unfolding evaluate_operational_policy health_gate retries_gate backfills_gate traceability_gate
      operational_status
  policy-publishes input =
      let e = keep-any input.backfills in
      (
        ground (arith, e),
        ((λ h. ground (arith, e)), (λ h. ground (arith, e))),
        ((λ h. ground (arith, e)), (λ h. ground (arith, e))),
      )

clean-All :
    {Name : Type 0} (gs : List (Gate Name))
    → ((any blocks gs || any warns gs) ≡ false) ↔ All (λ g. g.status ≡ pass) gs
clean-All [] = ((λ h. tt), (λ h. refl))
clean-All (g ∷ gs) =
    let (f, b) = clean-All gs in
    ((λ h. (ground arith, f (ground arith))), (λ (p, ps). ground (arith, b ps)))

gates-length : (input : PromotionInput) → length (promotion_gates input) ≡ 6
unfolding promotion_gates
gates-length input = refl

status_promotable :
    (gs : List (Gate PromotionGateName))
    → (promotion_status gs ≡ promotable) ↔ ((any blocks gs || any warns gs) ≡ false)
unfolding promotion_status
status_promotable gs = ((λ h. ground arith), (λ h. ground arith))

status_blocked :
    (gs : List (Gate PromotionGateName))
    → (promotion_status gs ≡ PromotionStatus.blocked) ↔ (any blocks gs ≡ true)
unfolding promotion_status
status_blocked gs = ((λ h. ground arith), (λ h. ground arith))

-- A sandbox may be promoted exactly where each of the six gates passes, and its promotion is blocked
-- exactly where some gate blocks, whatever the others say.
pub promotion-gates :
    (input : PromotionInput)
    → (((evaluate_sandbox_promotion input).status ≡ promotable)
        ↔ All (λ g. g.status ≡ pass) (evaluate_sandbox_promotion input).gates)
      × (((evaluate_sandbox_promotion input).status ≡ PromotionStatus.blocked)
          ↔ (any blocks (evaluate_sandbox_promotion input).gates ≡ true))
      × (length (evaluate_sandbox_promotion input).gates ≡ 6)
unfolding evaluate_sandbox_promotion
promotion-gates input =
    let gs = promotion_gates input in
    let (f, b) = clean-All gs in
    let (g, c) = status_promotable gs in
    (((λ h. f (g h)), (λ h. c (b h))), status_blocked gs, gates-length input)
