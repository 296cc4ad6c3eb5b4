-- ===== src/Gdb/Connection.antt =====
-- The connection to the debugger (src/gdb_server.c): what is sent and the wait for its receipt.
pub mod Follows
use libopenwch_tools.Prelude.{
  ℕ, zero, suc, ◌+◌, ◌-◌, ◌*◌, ◌/◌, Bool, true, false, List, [], ◌∷◌, ◌++◌, ◌==◌, ltb,
  if◌then◌else◌, length, take, drop, codes, bit_and,
}
use Prim.Native.String.{String}
use libopenwch_tools.Gdb.Hex.{format_hex_byte, format_hex_bytes}
use libopenwch_tools.Gdb.Packet.{framed, packet_max}
use libopenwch_tools.Gdb.Breakpoint.{Breakpoint}

-- `struct gdb_conn`. The socket is the bytes that are still to come in (its end closes it), those
-- that went out, and how many more packets can be sent before a send fails.
pub record Conn (S : Type 0) : Type 0 where
  pub link : S
  pub quit : Bool
  pub breakpoints : List Breakpoint
  pub incoming : List ℕ
  pub outgoing : List ℕ
  pub sends_left : ℕ

-- How many bytes of a text go into one packet as digits.
abbrev pub output_max : ℕ
output_max = (packet_max - 1) / 2

module _ {S : Type 0} where
  send_while : ℕ → List ℕ → Conn S → Conn S × Bool
  send_while zero bytes conn = (conn, true)
  send_while (suc n) bytes conn =
      (record conn { outgoing = conn.outgoing ++ bytes; sends_left = n }, false)

  -- `gdb_send_all`; the second component says that the send failed.
  unfoldable pub send_all : List ℕ → Conn S → Conn S × Bool
  unfolding send_while
  send_all bytes conn = send_while conn.sends_left bytes conn

  quit_if : Conn S × Bool → Conn S
  quit_if (conn, true) = record conn { quit = true }
  quit_if (conn, false) = conn

  -- The loop of `gdb_send_packet` that waits for the `+`, over what comes in.
  await_ack : List ℕ → List ℕ → Conn S → Conn S
  unfolding quit_if send_all
  await_ack bytes [] conn = record conn { quit = true; incoming = [] }
  await_ack bytes (reply ∷ stream) conn =
      let retried = await_ack bytes stream (quit_if (send_all bytes conn)) in
      let ignored = await_ack bytes stream conn in
      if reply == b'+'
      then record conn { incoming = stream }
      else if reply == b'-'
      then retried
      else ignored

  sent_first : List ℕ → Conn S × Bool → Conn S
  unfolding await_ack
  sent_first bytes (conn, true) = record conn { quit = true }
  sent_first bytes (conn, false) = await_ack bytes conn.incoming conn

  -- `gdb_send_packet`, and `gdb_send_text` for a text
  unfoldable pub send_packet : List ℕ → Conn S → Conn S
  unfolding sent_first framed
  send_packet payload conn = sent_first (framed payload) (send_all (framed payload) conn)

  abbrev pub send_text : String → Conn S → Conn S
  send_text text = send_packet (codes text)

  -- The loop of `gdb_send_output`, in rounds; each sends at least one byte.
  send_chunks : ℕ → List ℕ → Conn S → Conn S
  send_chunks zero text conn = conn
  send_chunks (suc rounds) [] conn = conn
  send_chunks (suc rounds) (c ∷ text) conn =
      send_chunks rounds (drop output_max (c ∷ text))
        (send_packet (b'O' ∷ format_hex_bytes (take output_max (c ∷ text))) conn)

  -- `gdb_send_output`
  unfoldable pub send_output : List ℕ → Conn S → Conn S
  unfolding send_chunks
  send_output text = send_chunks (length text) text

  -- `gdb_send_stop`
  unfoldable pub send_stop : ℕ → Conn S → Conn S
  send_stop signal = send_packet (b'T' ∷ format_hex_byte signal ++ codes "thread:1;")
