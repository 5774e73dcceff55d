-- ===== src/Metadata.antt =====
-- components/metadataservice with its adapters in memory.
pub mod Contracts
pub mod Keywords
pub mod Guess
pub mod Service
mod Extracts
mod Tests
