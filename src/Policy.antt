-- ===== src/Policy.antt =====
-- Coverage of fixtures, operational policy and sandbox promotion
-- (packages/policy-engine/src/index.ts).
pub mod Coverage
pub mod Scope
pub mod Eligibility
pub mod Gates
pub mod Promotion
pub mod Publication
mod Tests
