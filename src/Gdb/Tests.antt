-- ===== src/Gdb/Tests.antt =====
-- Runs of the remote protocol: its codecs and the breakpoint table.
use libopenwch_tools.Prelude.{
  ◌%◌, ◌<◌, ◌≡◌, length, none, some, [], ◌∷◌, ◌++◌, codes, ◌==◌, if◌then◌else◌, arith,
}
use libopenwch_tools.Gdb.Hex.{parse_hex_bytes, parse_hex_bytes-format, format_hex_bytes}
use libopenwch_tools.Gdb.Packet.{receive, framed, escape, is_special, packet_max}
use libopenwch_tools.Gdb.Packet.Framing.{escapes, receive-framed}

parse_hex_bytes-format_example :
    parse_hex_bytes 2 (format_hex_bytes (0x5a ∷ 0xff ∷ []) ++ codes "!") ≡ some (0x5a ∷ 0xff ∷ [])
parse_hex_bytes-format_example =
    parse_hex_bytes-format (0x5a ∷ 0xff ∷ []) (codes "!") (omega arith, (omega arith, tt))

raw_fits : length (escape (codes "a#")) < packet_max
unfolding escape is_special
raw_fits = omega arith

receive-framed_example : receive 4096 (framed (codes "a#") ++ codes "$") ≡ (
    if escapes (codes "a#") % 256 == 0
    then record { packet = some (codes "a#"); sent = b'+' ∷ []; rest = codes "$" }
    else record { packet = none; sent = b'-' ∷ []; rest = codes "$" })
receive-framed_example = receive-framed (codes "a#") (codes "$") 4096 raw_fits (omega arith)
