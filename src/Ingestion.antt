-- ===== src/Ingestion.antt =====
-- components/ingestionservice: files are stored, registered and submitted to the indexer, as a job.
pub mod Contracts
pub mod Repository
pub mod Frame
pub mod Service
pub mod Wants
pub mod Tracked
pub mod Loops
pub mod Outcome
pub mod Http
pub mod Tenants
mod Tests
