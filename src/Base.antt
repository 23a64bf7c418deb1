-- ===== src/Base.antt =====
-- base.cpp: helpers that the other parts call.
pub mod Args
pub mod Deleted
pub mod Fields
pub mod Names
mod Tests
