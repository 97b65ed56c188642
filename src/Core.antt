-- ===== src/Core.antt =====
-- The core model: src/mcore.cpp and src/mcore.h.
pub mod Types
pub mod Rob
pub mod Trace
pub mod Cycle
mod Tests
