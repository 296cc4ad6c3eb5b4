-- ===== src/Target.antt =====
-- The part table and its lookups (src/target.c).
pub mod Table
pub mod Detect
pub mod Name
pub mod Tests
pub use Table.{Chip, FlashAlgo, unsupported, ch32v0, chip}
unfoldable pub use Table.{chips}
