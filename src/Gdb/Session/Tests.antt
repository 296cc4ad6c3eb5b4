-- ===== src/Gdb/Session/Tests.antt =====
-- Runs of the server against a target made up here.
use libopenwch_tools.Prelude.{
  ℕ, suc, ◌≡◌, refl, inr, true, false, some, List, [], ◌∷◌, ◌++◌, ◌==◌, if◌then◌else◌, length,
  codes, All, arith,
}
use libopenwch_tools.Status.{ok, ⊤}
use libopenwch_tools.Target.{Chip, ch32v0, chip}
use libopenwch_tools.Target.Table.{ram_std, fb_v}
use libopenwch_tools.Dm.Command.{
  Dmi, data0, run_read, run_write, load_program, gpr_write, gpr_read, command_out, command_in,
  issue, wait, wait_for, poll,
}
use libopenwch_tools.Dm.Encode.{read_program}
use libopenwch_tools.Dm.Memory.{read_sized}
use libopenwch_tools.Dm.Memory.Block.{IsReadable}
use libopenwch_tools.Gdb.Hex.{parse_hex_u32, parse_hex_bytes, format_hex_u32_le, hex_nibble}
use libopenwch_tools.Gdb.Hex.Order.{swapped, parse_hex_u32-format}
use libopenwch_tools.Gdb.Packet.{framed}
use libopenwch_tools.Gdb.Breakpoint.{Breakpoint}
use libopenwch_tools.Gdb.Breakpoint.Slots.{IsSound}
use libopenwch_tools.Gdb.Connection.{Conn}
use libopenwch_tools.Gdb.Contents.{parse_range, contents}
use libopenwch_tools.Gdb.Contents.Reply.{contents-bytes}
use libopenwch_tools.Gdb.Document.Pieces.{fetch, fetch-whole}
use libopenwch_tools.Gdb.Session.{Progress, session, serve}
use libopenwch_tools.Gdb.Session.Ending.{session-ends, session-IsSound, slots_of, table_of, Cleared}

-- A debug module that is never busy and finds 0x5a in every byte of memory.
abbrev steady : Dmi ⊤
steady = record {
  read = λ reg s. (ok (if reg == data0 then 0x5a5a_5a5a else 0), s);
  write = λ reg value s. (ok tt, s);
}

steady-IsReadable : IsReadable (read_sized steady) (λ s. ⊤) (λ a. 0x5a) 0 1000
unfolding read_sized run_read run_write load_program gpr_write gpr_read command_out command_in issue
    wait wait_for poll read_program
steady-IsReadable = record {
  below = omega arith;
  byte_lt = λ a. omega arith;
  byte = λ a s inv l h. (0x5a5a_5a5a, tt, refl, refl, tt);
  word = λ a s inv l h al. (tt, refl, tt);
}

abbrev v003 : Chip
v003 = chip "ch32v003" "ch32v0" 16 2 ram_std 0x09 0x0030 0x01 fb_v 64 2 ch32v0

abbrev busy : Breakpoint
busy = record { used = true; address = 0x2000_0004; kind = 4; original = 1 ∷ 2 ∷ 3 ∷ 4 ∷ [] }

-- A debugger that asks for the registers' thread, detaches, and acknowledges what it gets.
abbrev detaching : Conn ⊤
detaching = record {
  link = tt;
  quit = false;
  breakpoints = busy ∷ [];
  incoming = framed (codes "qC") ++ (codes "+" ++ (framed (codes "D") ++ codes "+"));
  outgoing = [];
  sends_left = 10;
}

session-ends_example :
    (p : Progress ⊤) × (session steady v003 [] detaching ≡ some p) × (slots_of p ≡ 1)
session-ends_example = session-ends steady v003 [] detaching

session-IsSound_example :
    (p : Progress ⊤) × (serve steady v003 (suc (length detaching.incoming)) [] detaching ≡ some p)
    × All IsSound (table_of p)
    × (q : Progress ⊤) × (session steady v003 [] detaching ≡ some q)
    × Cleared q
session-IsSound_example = session-IsSound steady v003 [] detaching (inr (inr refl, refl), tt)

asked : parse_range (codes "10,4") ≡ some (0x10, (4, []))
unfolding parse_range parse_hex_u32 hex_nibble
asked = refl

contents-bytes_example :
    (text : List ℕ) × (s' : ⊤) × (contents steady (codes "m10,4") tt ≡ (ok text, s'))
    × (length text ≡ 8)
    × (parse_hex_bytes 4 text ≡ some (0x5a ∷ 0x5a ∷ 0x5a ∷ 0x5a ∷ []))
    × ⊤
contents-bytes_example =
    contents-bytes steady (λ s. ⊤) (λ a. 0x5a) 0 1000 steady-IsReadable (codes "m10,4") [] 0x10 4 tt
      asked (omega arith) tt (omega arith) (omega arith)

fetch-whole_example : fetch 4 (codes "abc") 2 0 ≡ codes "abc"
fetch-whole_example = fetch-whole (codes "abc") 2 (omega arith)

parse_hex_u32-format_example :
    parse_hex_u32 (format_hex_u32_le 0x1234_5678) ≡ some (swapped 0x1234_5678, [])
parse_hex_u32-format_example = parse_hex_u32-format 0x1234_5678 (omega arith)
