-- ===== src/Embedding.antt =====
-- components/embeddingadapter.
pub mod Contracts
pub mod Fake
pub mod Service
pub mod Shapes
mod Tests
