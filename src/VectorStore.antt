-- ===== src/VectorStore.antt =====
-- components/vectorstoreadapter: the vector store in memory.
pub mod Models
pub mod Filter
pub mod Adapter
pub mod Fetching
pub mod Matching
pub mod Ranking
pub mod Ranked
mod Tests
