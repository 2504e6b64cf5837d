-- ===== src/Orchestration/Budget.antt =====
-- Budgets of workflows (packages/orchestration-sdk/src/index.ts). Amounts are natural numbers.
use gana_v.Prelude.{
  ℕ, ◌+◌, ◌-◌, ◌*◌, String, Bool, Option, none, some, List, [], ◌∷◌, ◌++◌, ◌==◌, ltb, if◌then◌else◌,
  get_or, length,
}

pub record BudgetPolicy : Type 0 where
  pub max_attempts : ℕ
  pub max_runtime_ms : ℕ
  pub max_credits : ℕ

pub record BudgetSnapshot : Type 0 where
  pub attempts_used : ℕ
  pub credits_used : ℕ
  pub runtime_ms_used : ℕ

pub record BudgetDecision : Type 0 where
  pub accepted : Bool
  pub reasons : List String
  pub remaining : BudgetSnapshot

-- `Partial<WorkflowBudgetPolicy>` and `Partial<WorkflowBudgetSnapshot>`
pub record PartialPolicy : Type 0 where
  pub max_attempts : Option ℕ
  pub max_runtime_ms : Option ℕ
  pub max_credits : Option ℕ

pub record PartialSnapshot : Type 0 where
  pub attempts_used : Option ℕ
  pub credits_used : Option ℕ
  pub runtime_ms_used : Option ℕ

abbrev pub default_workflow_budget : BudgetPolicy
default_workflow_budget = record {
  max_attempts = 3;
  max_runtime_ms = 15 * 60 * 1000;
  max_credits = 100;
}

unfoldable pub normalize_budget_policy : Option PartialPolicy → BudgetPolicy
normalize_budget_policy none = default_workflow_budget
normalize_budget_policy (some policy) = record {
  max_attempts = get_or policy.max_attempts default_workflow_budget.max_attempts;
  max_runtime_ms = get_or policy.max_runtime_ms default_workflow_budget.max_runtime_ms;
  max_credits = get_or policy.max_credits default_workflow_budget.max_credits;
}

-- `if (used > max) reasons.push(reason)`
abbrev pub exhausted : ℕ → ℕ → String → List String
exhausted used limit reason = if ltb limit used then reason ∷ [] else []

-- `Math.max(0, max - used)` is the subtraction of natural numbers.
unfoldable pub evaluate_budget : BudgetPolicy → BudgetSnapshot → BudgetDecision
evaluate_budget policy snapshot =
    let reasons =
      exhausted snapshot.attempts_used policy.max_attempts "max_attempts_exhausted"
      ++ exhausted snapshot.credits_used policy.max_credits "max_credits_exhausted"
      ++ exhausted snapshot.runtime_ms_used policy.max_runtime_ms "max_runtime_exhausted" in
    record {
      accepted = length reasons == 0;
      reasons = reasons;
      remaining = record {
        attempts_used = policy.max_attempts - snapshot.attempts_used;
        credits_used = policy.max_credits - snapshot.credits_used;
        runtime_ms_used = policy.max_runtime_ms - snapshot.runtime_ms_used;
      };
    }

unfoldable pub consume_budget : BudgetSnapshot → PartialSnapshot → BudgetSnapshot
consume_budget current input = record {
  attempts_used = current.attempts_used + get_or input.attempts_used 0;
  credits_used = current.credits_used + get_or input.credits_used 0;
  runtime_ms_used = current.runtime_ms_used + get_or input.runtime_ms_used 0;
}
