-- ===== src/Gdb/Packet.antt =====
-- Packet framing (src/gdb_server.c). The socket is the list of the bytes still to come in.
pub mod Framing
pub mod Shorter
use libopenwch_tools.Prelude.{
  ℕ, zero, suc, ◌+◌, ◌-◌, ◌*◌, ◌/◌, ◌%◌, ◌^◌, ◌<◌, Bool, true, false, ◌||◌, Option, none, some,
  List, [], ◌∷◌, ◌++◌, ◌==◌, ltb, if◌then◌else◌, length, bit_or, u8, ◌<<<◌,
}
use Prim.Native.Nat.{bit_xor}
use libopenwch_tools.Gdb.Hex.{hex_nibble, format_hex_byte}

-- The characters that `gdb_send_packet` escapes.
unfoldable pub is_special : ℕ → Bool
is_special c = (c == b'$') || ((c == b'#') || ((c == b'}') || (c == b'*')))

unfoldable pub escape : List ℕ → List ℕ
unfolding is_special
escape [] = []
escape (c ∷ payload) =
    (if is_special c then b'}' ∷ bit_xor c 0x20 ∷ [] else c ∷ []) ++ escape payload

-- The sum that both sides keep on 8 bits.
pub sum : List ℕ → ℕ → ℕ
sum [] checksum = checksum
sum (c ∷ bytes) checksum = sum bytes (u8 (checksum + c))

-- The bytes that `gdb_send_packet` puts on the wire. The sum is that of the payload as it was before
-- the escapes.
unfoldable pub framed : List ℕ → List ℕ
unfolding escape sum
framed payload = b'$' ∷ escape payload ++ (b'#' ∷ format_hex_byte (sum payload 0))

abbrev pub packet_max : ℕ
packet_max = 4096

abbrev map_option : (List ℕ → List ℕ) → Option (List ℕ) → Option (List ℕ)
map_option f none = none
map_option f (some bytes) = some (f bytes)

-- The first loop of `gdb_recv_packet`: what follows the first `$`; `none` is the end of the stream.
skip : List ℕ → Option (List ℕ)
skip [] = none
skip (c ∷ stream) = if c == b'$' then some stream else skip stream

put_front : ℕ → Option (List ℕ × List ℕ) → Option (List ℕ × List ℕ)
put_front c none = none
put_front c (some (raw, stream)) = some (c ∷ raw, stream)

-- The second loop, with the length so far: the raw bytes up to `#` and what follows; what does not
-- fit is dropped.
collect : ℕ → List ℕ → Option (List ℕ × List ℕ)
unfolding put_front
collect raw_len [] = none
collect raw_len (c ∷ stream) =
    let kept = put_front c (collect (raw_len + 1) stream) in
    let dropped = collect raw_len stream in
    if c == b'#' then some ([], stream) else if ltb (raw_len + 1) packet_max then kept else dropped

-- The last loop, with the length so far and whether the byte before was an escape; `out_max` is the
-- size of the caller's buffer, and what does not fit is dropped.
unescape : ℕ → ℕ → Bool → List ℕ → Option (List ℕ)
unescape out_max out_len false [] = some []
unescape out_max out_len true [] = none
unescape out_max out_len false (c ∷ raw) =
    let escaped = unescape out_max out_len true raw in
    let kept = map_option (λ bytes. c ∷ bytes) (unescape out_max (out_len + 1) false raw) in
    let dropped = unescape out_max out_len false raw in
    if c == b'}' then escaped else if ltb (out_len + 1) out_max then kept else dropped
unescape out_max out_len true (c ∷ raw) =
    let kept =
      map_option (λ bytes. bit_xor c 0x20 ∷ bytes) (unescape out_max (out_len + 1) false raw) in
    let dropped = unescape out_max out_len false raw in
    if ltb (out_len + 1) out_max then kept else dropped

-- What `gdb_recv_packet` returns (`none` for -1), the bytes it sends and what it leaves on the stream.
pub record Received : Type 0 where
  pub packet : Option (List ℕ)
  pub sent : List ℕ
  pub rest : List ℕ

-- The comparison of the sums, the acknowledgement and the last loop.
judge : ℕ → List ℕ → ℕ → List ℕ → Received
unfolding unescape sum
judge out_max raw received rest =
    if sum raw 0 == received
    then record { packet = unescape out_max 0 false raw; sent = b'+' ∷ []; rest = rest }
    else record { packet = none; sent = b'-' ∷ []; rest = rest }

no_packet : List ℕ → Received
no_packet rest = record { packet = none; sent = []; rest = rest }

-- The two digits of the sum.
low_digit : ℕ → List ℕ → ℕ → List ℕ → Received
unfolding judge no_packet
low_digit out_max raw high [] = no_packet []
low_digit out_max raw high (c ∷ stream) = elim (hex_nibble c) [
  | none ↦ no_packet stream
  | some low ↦ judge out_max raw (u8 (bit_or (high <<< 4) low)) stream
]

digits : ℕ → List ℕ → List ℕ → Received
unfolding low_digit no_packet
digits out_max raw [] = no_packet []
digits out_max raw (c ∷ stream) = elim (hex_nibble c) [
  | none ↦ no_packet stream
  | some high ↦ low_digit out_max raw high stream
]

collected : ℕ → Option (List ℕ × List ℕ) → Received
unfolding digits no_packet
collected out_max none = no_packet []
collected out_max (some (raw, stream)) = digits out_max raw stream

started : ℕ → Option (List ℕ) → Received
unfolding collected collect no_packet
started out_max none = no_packet []
started out_max (some stream) = collected out_max (collect 0 stream)

-- `gdb_recv_packet`
unfoldable pub receive : ℕ → List ℕ → Received
unfolding started skip
receive out_max stream = started out_max (skip stream)
