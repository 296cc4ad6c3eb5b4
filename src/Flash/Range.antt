-- ===== src/Flash/Range.antt =====
-- Addresses of the flash and its alias at 0 (src/flash.c).
pub mod Alias
use libopenwch_tools.Prelude.{
  ℕ, ◌+◌, ◌%◌, ◌≤◌, ◌<◌, ◌^◌, Bool, false, ◌&&◌, ◌==◌, leb, if◌then◌else◌, bit_and, bit_or,
}
use libopenwch_tools.Target.{Chip}

-- `normalise`
pub normalise : Chip → ℕ → ℕ
normalise c address =
    if (c.flash_base == 0x0800_0000) && (bit_and address 0xff00_0000 == 0)
    then bit_or address 0x0800_0000
    else address

-- `wl_flash_range_ok`; the sum of the start and the length is on 64 bits, where a length near 2^64
-- wraps. The base and the size are of 32 bits, so that their sum does not.
unfoldable pub range_ok : Chip → ℕ → ℕ → Bool
unfolding normalise
range_ok c address length =
    if c.flash_size == 0
    then false
    else let start = normalise c address in
      leb c.flash_base start && leb ((start + length) % 2 ^ 64) (c.flash_base + c.flash_size)
