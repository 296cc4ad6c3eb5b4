-- ===== src/Gdb.antt =====
-- The remote protocol that GDB speaks (src/gdb_server.c): its numbers and its packets.
pub mod Preserves
pub mod Handles
pub mod Hex
pub mod Packet
pub mod Breakpoint
pub mod Run
pub mod Patch
pub mod Connection
pub mod Registers
pub mod Contents
pub mod Document
pub mod Monitor
pub mod Session
pub mod Server
mod Tests
