-- ===== src/Forward.antt =====
-- forward.cpp: `HdcForwardBase`, the forwarding of ports between the two sides of a session.
pub mod Node
pub mod Contexts
pub mod Commands
pub mod Dispatch
pub mod Alive
pub mod Flow
mod Tests
