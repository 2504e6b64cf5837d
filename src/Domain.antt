-- ===== src/Domain.antt =====
-- The entities of the domain and their life cycles (packages/domain-core/src).
pub mod Common
pub mod Task
pub mod TaskHistory
pub mod Fixture
pub mod FixtureHistory
pub mod Prediction
pub mod PredictionHistory
pub mod Parlay
pub mod Validation
pub mod AiRun
pub mod Once
pub mod Sandbox
pub mod Workflow
pub mod Stages
mod Tests
