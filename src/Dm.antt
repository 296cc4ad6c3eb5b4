-- ===== src/Dm.antt =====
-- The RISC-V debug module (src/dm.c, src/dm.h), over an interface to its registers that
-- src/linke.c implements.
pub mod Encode
pub mod Command
pub mod Preserves
pub mod Related
pub mod Memory
pub mod Tests
