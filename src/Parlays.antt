-- ===== src/Parlays.antt =====
-- Parlays: candidates, their selection and the settlement of tickets
-- (packages/parlay-engine/src/index.ts).
pub mod Candidate
pub mod Correlation
pub mod Selection
pub mod Build
pub mod Built
pub mod Ticket
pub mod Legs
pub mod Account
pub mod Settled
pub mod Verdicts
mod Tests
