-- ===== src/Mappers.antt =====
-- The mappers between entities and rows of the database
-- (packages/storage-adapters/src/prisma/mappers.ts), in the files below.
pub mod Names
pub mod Rows
pub mod Saved
mod Tests
