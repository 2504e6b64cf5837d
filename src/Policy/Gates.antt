-- ===== src/Policy/Gates.antt =====
-- The gates of the operator and of the sandbox: `evaluateOperationalPolicy` and
-- `evaluateSandboxPromotion` (packages/policy-engine/src/index.ts). Counts are natural numbers, rates
-- are numbers of the language.
use gana_v.Prelude.{
  ℕ, ◌+◌, String, Bool, true, false, ◌||◌, not, List, [], ◌∷◌, ◌++◌, map, if◌then◌else◌, length,
  keep, any, all, ltb,
}
use gana_v.Prelude.Texts.{join, join_with}
use gana_v.Numbers.{Numbers, integer}

pub data CheckStatus : Type 0 where
  passing warning : CheckStatus

pub record HealthCheck : Type 0 where
  pub name : String
  pub status : CheckStatus
  pub detail : String

pub data HealthStatus : Type 0 where
  healthy degraded : HealthStatus

pub record Health : Type 0 where
  pub status : HealthStatus
  pub checks : List HealthCheck

pub record RetrySummary : Type 0 where
  pub retrying : ℕ
  pub failed : ℕ
  pub quarantined : ℕ
  pub exhausted : ℕ

pub data BackfillStatus : Type 0 where
  in_order needed : BackfillStatus

pub record Backfill : Type 0 where
  pub area : String
  pub status : BackfillStatus
  pub detail : String

pub data GateStatus : Type 0 where
  pass warn block : GateStatus

pub data OperationalGateName : Type 0 where
  health retries backfills traceability publication_readiness : OperationalGateName

pub data PromotionGateName : Type 0 where
  sandbox_certification contract_coverage cron_workflows : PromotionGateName
  publication_safety capability_isolation manual_qa : PromotionGateName

pub record Gate (Name : Type 0) : Type 0 where
  pub name : Name
  pub status : GateStatus
  pub detail : String

pub data OperationalStatus : Type 0 where
  ready degraded blocked : OperationalStatus

pub record OperationalReport : Type 0 where
  pub status : OperationalStatus
  pub publish_allowed : Bool
  pub retry_recommended : Bool
  pub backfill_required : Bool
  pub gates : List (Gate OperationalGateName)
  pub summary : String

abbrev pub is_warning : CheckStatus → Bool
is_warning warning = true
is_warning _ = false

abbrev pub is_healthy : HealthStatus → Bool
is_healthy healthy = true
is_healthy _ = false

abbrev pub is_needed : BackfillStatus → Bool
is_needed needed = true
is_needed _ = false

abbrev pub blocks : {Name : Type 0} → Gate Name → Bool
blocks gate = elim gate.status [ block ↦ true | _ ↦ false ]

abbrev pub warns : {Name : Type 0} → Gate Name → Bool
warns gate = elim gate.status [ warn ↦ true | _ ↦ false ]

unfoldable pub operational_status : Bool → Bool → OperationalStatus
operational_status publish_allowed warned =
    if publish_allowed
    then if warned then OperationalStatus.degraded else OperationalStatus.ready
    else OperationalStatus.blocked

abbrev pub operational_summary : OperationalStatus → String
operational_summary ready = "Operator policy ready"
operational_summary degraded = "Operator policy degraded but still serviceable"
operational_summary blocked =
    "Operator policy blocked: clear backfills/quarantines before publishing"

abbrev pub readiness_gate : Bool → Bool → Gate OperationalGateName
readiness_gate publish_allowed warned = record {
  name = publication_readiness;
  status = if publish_allowed then if warned then warn else pass else block;
  detail =
      if publish_allowed
      then if warned then "Publish allowed with degraded operator posture" else "Publish allowed"
      else "Publish blocked until retries/backfills are cleared";
}

module _ (N : Numbers) where
  pub record Traceability : Type 0 where
    pub task_trace_coverage_rate : N.Num
    pub ai_run_request_coverage_rate : N.Num

  pub record OperationalInput : Type 0 where
    pub health : Health
    pub retries : RetrySummary
    pub backfills : List Backfill
    pub traceability : Traceability

  unfoldable pub to_percent : N.Num → String
  to_percent value = join (N.to_string (N.round (N.mul value (integer N 100))) ∷ "%" ∷ [])

  abbrev count : ℕ → String
  count n = N.to_string (integer N n)

  unfoldable pub health_gate : Health → Gate OperationalGateName
  health_gate h = record {
    name = OperationalGateName.health;
    status = if is_healthy h.status then pass else warn;
    detail =
        if is_healthy h.status
        then "Health checks are green"
        else join (
            count (length (keep (λ c. is_warning c.status) h.checks))
            ∷ " health check(s) degraded"
            ∷ []);
  }

  unfoldable pub retries_gate : RetrySummary → Gate OperationalGateName
  retries_gate r =
      let given_up = ltb 0 r.exhausted || ltb 0 r.quarantined in
      let pressure = ltb 0 (r.retrying + r.failed) in
      record {
        name = OperationalGateName.retries;
        status = if given_up then block else if pressure then warn else pass;
        detail =
            if given_up
            then join (
                count r.exhausted
                ∷ " exhausted and "
                ∷ count r.quarantined
                ∷ " quarantined task(s)"
                ∷ [])
            else if pressure
            then join (
                count r.retrying
                ∷ " retrying and "
                ∷ count r.failed
                ∷ " failed task(s) waiting for attention"
                ∷ [])
            else "Retry queue is healthy";
      }

  unfoldable pub backfills_gate : List Backfill → Gate OperationalGateName
  backfills_gate needs =
      let some_needed = ltb 0 (length needs) in
      record {
        name = OperationalGateName.backfills;
        status = if some_needed then block else pass;
        detail =
            if some_needed
            then join_with "; " (map (λ b. join (b.area ∷ ": " ∷ b.detail ∷ [])) needs)
            else "No backfill required";
      }

  unfoldable pub traceability_gate : Traceability → Gate OperationalGateName
  unfolding to_percent
  traceability_gate t =
      let weak =
        N.ltb t.task_trace_coverage_rate (N.literal 8 1)
        || N.ltb t.ai_run_request_coverage_rate (N.literal 5 1) in
      record {
        name = OperationalGateName.traceability;
        status = if weak then warn else pass;
        detail = join (
            "task traces "
            ∷ to_percent t.task_trace_coverage_rate
            ∷ " | provider requests "
            ∷ to_percent t.ai_run_request_coverage_rate
            ∷ []);
      }

  unfoldable pub evaluate_operational_policy : OperationalInput → OperationalReport
  unfolding operational_status
  evaluate_operational_policy input =
      let needs = keep (λ b. is_needed b.status) input.backfills in
      let gates =
        health_gate input.health
        ∷ retries_gate input.retries
        ∷ backfills_gate needs
        ∷ traceability_gate input.traceability
        ∷ [] in
      let allowed = all (λ g. not (blocks g)) gates in
      let all_gates = gates ++ readiness_gate allowed (any warns gates) ∷ [] in
      let status = operational_status allowed (any warns all_gates) in
      record {
        status = status;
        publish_allowed = allowed;
        retry_recommended = ltb 0 (input.retries.retrying + input.retries.failed);
        backfill_required = ltb 0 (length needs);
        gates = all_gates;
        summary = operational_summary status;
      }
