-- ===== src/Linke.antt =====
-- The packet protocol of the WCH-LinkE (src/linke.c), over a transport (src/transport.h).
pub mod Preserves
pub mod Request
pub mod Control
pub mod Part
pub mod Register
pub mod Program
mod Tests
