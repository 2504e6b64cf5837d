-- ===== src/Orchestration.antt =====
-- Budgets, task envelopes, the queue of the control plane, cron and the router of workflows
-- (packages/orchestration-sdk/src/index.ts).
pub mod Budget
pub mod Spending
pub mod Envelope
pub mod Dispatch
pub mod Order
pub mod Cron
pub mod CronFields
pub mod Scheduler
pub mod Minutes
pub mod Router
pub mod Routes
mod Tests
