-- ===== src/Gdb/Patch.antt =====
-- Memory as breakpoints see it (src/gdb_server.c): a patch of the flash is a page that is rewritten.
pub mod Page
use libopenwch_tools.Prelude.{
  ℕ, ◌+◌, ◌-◌, ◌*◌, Bool, true, false, ◌&&◌, ◌||◌, not, List, [], ◌∷◌, ◌++◌, ◌==◌, ltb,
  if◌then◌else◌, get_or, take, drop, length, bit_and, bit_or, bit_not32, u16, ◌<<<◌,
}
use libopenwch_tools.Status.{Action, usage, ⊤, pure, fail, ◌>>=◌, ◌>>◌}
use libopenwch_tools.Target.{Chip}
use libopenwch_tools.Dm.Command.{Dmi}
use libopenwch_tools.Dm.Memory.{write16, write32, read_block}
use libopenwch_tools.Flash.Access.{of_dmi}
use libopenwch_tools.Flash.Image.{flash_write}
use libopenwch_tools.Flash.Range.{range_ok}
use libopenwch_tools.Gdb.Breakpoint.{Memory}

-- `gdb_addr_is_flash`
unfoldable pub addr_is_flash : Chip → ℕ → Bool
addr_is_flash c address = range_ok c address 1

-- `gdb_normalise_flash`
unfoldable pub normalise_flash : Chip → ℕ → ℕ
normalise_flash c address =
    if (c.flash_base == 0x0800_0000) && (bit_and address 0xff00_0000 == 0)
    then bit_or address 0x0800_0000
    else address

-- The page of an address.
unfoldable pub page_start : ℕ → ℕ → ℕ
page_start address page_size = bit_and address (bit_not32 (page_size - 1))

-- `memcpy` of bytes to a place in the page.
unfoldable pub patched : List ℕ → ℕ → List ℕ → List ℕ
patched page place bytes = take place page ++ (bytes ++ drop (place + length bytes) page)

-- Two bytes and four bytes, the lowest first.
unfoldable pub half_of : List ℕ → ℕ
half_of bytes = u16 (bit_or (get_or bytes 0 0) (get_or bytes 1 0 <<< 8))

unfoldable pub word_of : List ℕ → ℕ
word_of bytes =
    bit_or (bit_or (bit_or (get_or bytes 0 0) (get_or bytes 1 0 <<< 8)) (get_or bytes 2 0 <<< 16))
      (get_or bytes 3 0 <<< 24)

module _ {S : Type 0} (D : Dmi S) (c : Chip) where
  -- `gdb_mem_read`
  unfoldable pub mem_read : ℕ → ℕ → Action S (List ℕ)
  mem_read address length = read_block D address length

  -- The branch of `gdb_mem_patch` for the flash.
  unfoldable pub flash_patch : ℕ → List ℕ → Action S ⊤
  unfolding page_start patched
  flash_patch address bytes =
      let start = page_start address c.erase_size in
      if (c.erase_size == 0) || ltb 4096 c.erase_size then fail usage else (do
        page ← read_block D start c.erase_size
        flash_write (of_dmi D) c (normalise_flash c start) (patched page (address - start) bytes))

  -- `gdb_mem_patch`
  unfoldable pub mem_patch : ℕ → List ℕ → Action S ⊤
  unfolding flash_patch addr_is_flash normalise_flash
  mem_patch address bytes =
      if addr_is_flash c address
      then flash_patch address bytes
      else if length bytes == 2
      then write16 D address (half_of bytes)
      else if length bytes == 4
      then write32 D address (word_of bytes)
      else fail usage

  -- What the breakpoint table works over.
  abbrev pub memory : Memory S
  memory = record { read = mem_read; patch = mem_patch }
