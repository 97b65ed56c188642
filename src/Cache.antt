-- ===== src/Cache.antt =====
-- The last-level cache, src/mcache.h and src/mcache.cpp.
pub mod Defs
pub mod Lookup
pub mod Victim
pub mod Install
pub mod Layout
pub mod Finding
pub mod Contents
pub mod Replace
pub mod Sound
pub mod Start
mod Tests
