-- ===== src/Session.antt =====
-- session.cpp: packets between the two ends of a session, and the table of sessions.
pub mod Admin
pub mod Send
pub mod Tasks
pub mod Life
pub mod Packet
pub mod Read
mod Tests
