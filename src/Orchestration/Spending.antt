-- ===== src/Orchestration/Spending.antt =====
-- What a budget lets a workflow spend (packages/orchestration-sdk/src/index.ts).
use gana_v.Prelude.{ℕ, ◌+◌, ◌-◌, ◌≡◌, Bool, ◌&&◌, arith, leb, get_or, length, ◌==◌, ◌∙◌}
use gana_v.Orchestration.Budget.{
  BudgetPolicy, BudgetSnapshot, PartialSnapshot, evaluate_budget, consume_budget,
}

-- Every amount of the first is at most that of the second.
abbrev pub fits_in : BudgetSnapshot → BudgetSnapshot → Bool
fits_in a b =
    leb a.attempts_used b.attempts_used
    && leb a.credits_used b.credits_used
    && leb a.runtime_ms_used b.runtime_ms_used

-- The amounts of a partial snapshot, 0 where one is missing.
abbrev pub amounts : PartialSnapshot → BudgetSnapshot
amounts input = record {
  attempts_used = get_or input.attempts_used 0;
  credits_used = get_or input.credits_used 0;
  runtime_ms_used = get_or input.runtime_ms_used 0;
}

abbrev pub limits : BudgetPolicy → BudgetSnapshot
limits policy = record {
  attempts_used = policy.max_attempts;
  credits_used = policy.max_credits;
  runtime_ms_used = policy.max_runtime_ms;
}

evaluate_budget-limits :
    (policy : BudgetPolicy) (s : BudgetSnapshot)
    → (evaluate_budget policy s).accepted ≡ fits_in s (limits policy)
unfolding evaluate_budget
evaluate_budget-limits policy s = ground arith

no_reasons :
    (policy : BudgetPolicy) (s : BudgetSnapshot)
    → (length (evaluate_budget policy s).reasons == 0) ≡ fits_in s (limits policy)
unfolding evaluate_budget
no_reasons policy s = ground arith

more : (u i l : ℕ) → leb (u + i) l ≡ (leb u l && leb i (l - u))
more u i l = ground arith

regroup :
    (a b c x y z : Bool) → ((a && x) && (b && y) && (c && z)) ≡ ((a && b && c) && (x && y && z))
regroup a b c x y z = ground arith

spends :
    (policy : BudgetPolicy) (s : BudgetSnapshot) (input : PartialSnapshot)
    → fits_in (consume_budget s input) (limits policy)
      ≡ (fits_in s (limits policy) && fits_in (amounts input) (evaluate_budget policy s).remaining)
unfolding evaluate_budget consume_budget
spends policy s input =
    rw
      (
        more s.attempts_used (get_or input.attempts_used 0) policy.max_attempts,
        more s.credits_used (get_or input.credits_used 0) policy.max_credits,
        more s.runtime_ms_used (get_or input.runtime_ms_used 0) policy.max_runtime_ms,
      )
      (regroup (leb s.attempts_used policy.max_attempts) (leb s.credits_used policy.max_credits)
        (leb s.runtime_ms_used policy.max_runtime_ms) _ _ _)

-- A budget is accepted exactly where no amount used is above its limit, which is also exactly where
-- no reason is given. A further consumption is accepted exactly where the budget was accepted and
-- each of the amounts is at most what remains.
pub budget-remaining :
    (policy : BudgetPolicy) (s : BudgetSnapshot) (input : PartialSnapshot)
    → ((evaluate_budget policy s).accepted ≡ fits_in s (limits policy))
      × ((length (evaluate_budget policy s).reasons == 0) ≡ fits_in s (limits policy))
      × ((evaluate_budget policy (consume_budget s input)).accepted ≡ (
          fits_in s (limits policy)
          && fits_in (amounts input) (evaluate_budget policy s).remaining))
budget-remaining policy s input = (
  evaluate_budget-limits policy s,
  no_reasons policy s,
  evaluate_budget-limits policy (consume_budget s input) ∙ spends policy s input,
)
