-- ===== src/Dram.antt =====
-- The DRAM model: src/dram.cpp, src/dramchannel.cpp, src/drambank.cpp and their headers.
pub mod Types
pub mod Outbox
pub mod Bus
pub mod Bank
pub mod Cycle
pub mod Channel
pub mod Address
pub mod System
pub mod Sample
mod Tests
