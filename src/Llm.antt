-- ===== src/Llm.antt =====
-- components/llmadapter with the provider for tests.
pub mod Contracts
pub mod Fake
pub mod Service
pub mod Streams
mod Tests
