-- ===== src/Queue.antt =====
-- The task queue (packages/queue-adapters/src/index.ts): the data and the life cycle of tasks and
-- their runs, the choice of the next task, and the operations of the in-memory adapter.
pub mod Task
pub mod Lifecycle
pub mod Select
pub mod Store
pub mod Enqueue
pub mod Claims
pub mod Adapter
pub mod Owners
pub mod Leases
pub mod Held
pub mod Invariant
pub mod Histories
pub mod Finished
pub mod Outcomes
pub mod Choice
pub mod Exclusion
pub mod Recycled
pub mod Calm
pub mod Idling
pub mod Claimed
pub mod Running
mod Tests
