-- ===== src/Indexer.antt =====
-- components/indexer: a document is cut into chunks, embedded and written to a vector store, as a job.
pub mod Contracts
pub mod Chunker
pub mod Action
pub mod Store
pub mod View
pub mod Service
pub mod Settles
pub mod Outcome
pub mod Jobs
pub mod Upsert
mod Tests
