-- ===== src/Flash.antt =====
-- Erasing, programming and verifying flash (src/flash.c, src/flash_ch32v0.c).
pub mod Preserves
pub mod Access
pub mod Range
pub mod Ch32v0
pub mod Image
mod Tests
