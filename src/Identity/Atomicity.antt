-- ===== src/Identity/Atomicity.antt =====
-- Which actions of modules/identity only read the database, and that a use case that fails has
-- written nothing.
pub mod Reads
pub mod UseCases
pub mod OneTimeCodes
pub mod Commands
mod Tests
