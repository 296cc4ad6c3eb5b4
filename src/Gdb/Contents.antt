-- ===== src/Gdb/Contents.antt =====
-- The memory packets m and M (src/gdb_server.c).
pub mod Reply
use libopenwch_tools.Prelude.{
  ℕ, zero, suc, ◌+◌, Bool, true, false, Option, none, some, List, [], ◌∷◌, ◌++◌, ◌==◌, ltb,
  if◌then◌else◌, get_or, drop, u32,
}
use libopenwch_tools.Status.{Action, Result, ok, err, usage, ⊤, pure, fail, ◌>>=◌, ◌>>◌}
use libopenwch_tools.Dm.Command.{Dmi}
use libopenwch_tools.Dm.Memory.{read_block, write8}
use libopenwch_tools.Gdb.Hex.{parse_hex_u32, parse_hex_bytes, format_hex_bytes}
use libopenwch_tools.Gdb.Connection.{Conn}
use libopenwch_tools.Gdb.Registers.{on_link, reply}

abbrev pub memory_max : ℕ
memory_max = 1024

-- The address and the number after it, with the text behind each; a comma stands between them.
second_number : ℕ → Option (ℕ × List ℕ) → Option (ℕ × (ℕ × List ℕ))
second_number address none = none
second_number address (some (n, rest)) = some (address, (n, rest))

two_numbers : Option (ℕ × List ℕ) → Option (ℕ × (ℕ × List ℕ))
unfolding second_number
two_numbers none = none
two_numbers (some (address, rest)) =
    if get_or rest 0 0 == b',' then second_number address (parse_hex_u32 (drop 1 rest)) else none

unfoldable pub parse_range : List ℕ → Option (ℕ × (ℕ × List ℕ))
unfolding two_numbers
parse_range text = two_numbers (parse_hex_u32 text)

module _ {S : Type 0} (D : Dmi S) where
  unfoldable pub read_range : Option (ℕ × (ℕ × List ℕ)) → Action S (List ℕ)
  read_range none = fail usage
  read_range (some (address, (length, rest))) =
      if ltb memory_max length
      then fail usage
      else (do bytes ← read_block D address length; pure (format_hex_bytes bytes))

  -- `gdb_handle_m`, up to the reply.
  unfoldable pub contents : List ℕ → Action S (List ℕ)
  unfolding read_range parse_range
  contents payload = read_range (parse_range (drop 1 payload))

  -- `gdb_handle_m`
  unfoldable pub handle_m : List ℕ → Conn S → Conn S
  unfolding contents on_link
  handle_m payload conn = reply (on_link (contents payload) conn)

  -- The loop of `gdb_handle_M`.
  unfoldable pub write_bytes : ℕ → List ℕ → Action S ⊤
  write_bytes address [] = pure tt
  write_bytes address (b ∷ bytes) = do write8 D (u32 address) b; write_bytes (address + 1) bytes

  unfoldable pub write_parsed : ℕ → Option (List ℕ) → Action S (List ℕ)
  unfolding write_bytes
  write_parsed address none = fail usage
  write_parsed address (some bytes) = do write_bytes address bytes; pure (b'O' ∷ b'K' ∷ [])

  unfoldable pub write_range : Option (ℕ × (ℕ × List ℕ)) → Action S (List ℕ)
  unfolding write_parsed
  write_range none = fail usage
  write_range (some (address, (length, rest))) =
      if get_or rest 0 0 == b':'
      then (if ltb memory_max length
          then fail usage
          else write_parsed address (parse_hex_bytes length (drop 1 rest)))
      else fail usage

  -- `gdb_handle_M`, up to the reply.
  unfoldable pub store : List ℕ → Action S (List ℕ)
  unfolding write_range parse_range
  store payload = write_range (parse_range (drop 1 payload))

  -- `gdb_handle_M`
  unfoldable pub handle_big_m : List ℕ → Conn S → Conn S
  unfolding store on_link
  handle_big_m payload conn = reply (on_link (store payload) conn)
