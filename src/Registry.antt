-- ===== src/Registry.antt =====
-- The choice of an AI model from a catalog (packages/model-registry/src).
pub mod Models
pub mod Allowed
pub mod Catalog
pub mod Selection
pub mod Request
pub mod Reasoning
pub mod Resolution
pub mod Trimmed
pub mod Requested
mod Tests
