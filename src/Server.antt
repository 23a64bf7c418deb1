-- ===== src/Server.antt =====
-- server.cpp: `HdcServer`, the host's server.
pub mod Daemons
pub mod Forwards
mod Tests
