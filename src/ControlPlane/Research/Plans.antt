-- ===== src/ControlPlane/Research/Plans.antt =====
-- The plan that `queueEligibleResearchTasks` (packages/control-plane-runtime/src/scheduler.ts)
-- returns.
use gana_v.Numbers.{Numbers}
use gana_v.Queue.Store.{Store}
