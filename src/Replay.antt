-- ===== src/Replay.antt =====
-- Settlement of predictions, score cards and replays of validations
-- (packages/validation-engine/src/index.ts).
pub mod Atomic
pub mod Settled
pub mod Coverage
pub mod Scorecard
pub mod Run
pub mod Checks
mod Tests
