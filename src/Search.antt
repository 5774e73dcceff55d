-- ===== src/Search.antt =====
-- components/searchservice with its adapters in memory.
pub mod Contracts
pub mod Filter
pub mod Store
pub mod Core
pub mod Ranks
pub mod Windows
mod Tests
