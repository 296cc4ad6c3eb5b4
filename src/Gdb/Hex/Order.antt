-- ===== src/Gdb/Hex/Order.antt =====
-- The order of the bytes of a number that is printed and then parsed.
use libopenwch_tools.Prelude.{
  ℕ, ◌+◌, ◌*◌, ◌/◌, ◌%◌, ◌^◌, ◌<◌, ◌≡◌, ap, ◌∙◌, Bool, true, false, Option, none, some, List, [],
  ◌∷◌, ◌++◌, bit_or, bit_and, u8, u32, ◌<<<◌, ◌>>>◌, if◌then◌else◌, arith,
}
use libopenwch_tools.Prelude.Bits.{bit_or_multiple}
use libopenwch_tools.Gdb.Hex.{
  parse_digits, parse_hex_u32, format_hex_u32_le, format_hex_byte, hex_digit, hex_nibble,
  hex_nibble-format,
}

-- The four bytes of a word in the other order.
abbrev pub swapped : ℕ → ℕ
swapped v = ((v % 256 * 256 + v / 256 % 256) * 256 + v / 65536 % 256) * 256 + v / 16777216 % 256

-- Two digits more.
shift_in :
    (r b : ℕ)
    → r < 2 ^ 24
    → b < 256
    → bit_or (u32 (bit_or (u32 (r <<< 4)) (b / 16) <<< 4)) (b % 16) ≡ r * 256 + b
shift_in r b h l =
    let e : bit_or (u32 (r <<< 4)) (b / 16) ≡ r * 16 + b / 16 =
      bit_or_multiple 4 (u32 (r <<< 4)) (b / 16) (omega arith) (omega arith) ∙ omega arith in
    let e₂ : u32 (bit_or (u32 (r <<< 4)) (b / 16) <<< 4) ≡ (r * 16 + b / 16) * 16 =
      ap (λ (x : ℕ). u32 (x <<< 4)) e ∙ omega arith in
    ap (λ (x : ℕ). bit_or x (b % 16)) e₂
    ∙ bit_or_multiple 4 ((r * 16 + b / 16) * 16) (b % 16) (omega arith) (omega arith)
    ∙ omega arith

parse_digit :
    (r : ℕ) (any : Bool) (c n : ℕ) (text : List ℕ)
    → hex_nibble c ≡ some n
    → parse_digits r any (c ∷ text) ≡ parse_digits (bit_or (u32 (r <<< 4)) n) true text
unfolding parse_digits
parse_digit r any c n text e =
    ap
      (λ o. elim o as (λ _. Option (ℕ × List ℕ)) [
        | none ↦ if any then some (r, c ∷ text) else none
        | some nibble ↦ parse_digits (bit_or (u32 (r <<< 4)) nibble) true text
      ])
      e

parse_byte :
    (r : ℕ) (any : Bool) (b : ℕ) (text : List ℕ)
    → r < 2 ^ 24
    → b < 256
    → parse_digits r any (format_hex_byte b ++ text) ≡ parse_digits (r * 256 + b) true text
unfolding format_hex_byte
parse_byte r any b text h l =
    let d = hex_nibble-format b l in
    parse_digit r any (hex_digit (b >>> 4)) (b / 16) (hex_digit (bit_and b 0xf) ∷ text) d.0
    ∙ parse_digit (bit_or (u32 (r <<< 4)) (b / 16)) true (hex_digit (bit_and b 0xf)) (b % 16) text
        d.1
    ∙ ap (λ x. parse_digits x true text) (shift_in r b h l)

-- The digits with which the replies to g and p give a register's value, the lowest byte first, are
-- read by the parser that a P packet's value goes through as the value with its four bytes in the
-- other order.
pub parse_hex_u32-format :
    (v : ℕ) → v < 2 ^ 32 → parse_hex_u32 (format_hex_u32_le v) ≡ some (swapped v, [])
unfolding parse_hex_u32 format_hex_u32_le parse_digits format_hex_byte
parse_hex_u32-format v h =
    let b₀ : ℕ = u8 v in
    let b₁ : ℕ = u8 (v >>> 8) in
    let b₂ : ℕ = u8 (v >>> 16) in
    let b₃ : ℕ = u8 (v >>> 24) in
    parse_byte 0 false b₀ (format_hex_byte b₁ ++ (format_hex_byte b₂ ++ format_hex_byte b₃))
      (omega arith) (omega arith)
    ∙ parse_byte (0 * 256 + b₀) true b₁ (format_hex_byte b₂ ++ format_hex_byte b₃) (omega arith)
        (omega arith)
    ∙ parse_byte ((0 * 256 + b₀) * 256 + b₁) true b₂ (format_hex_byte b₃) (omega arith)
        (omega arith)
    ∙ parse_byte (((0 * 256 + b₀) * 256 + b₁) * 256 + b₂) true b₃ [] (omega arith) (omega arith)
    ∙ ap (λ (x : ℕ). some (x, [])) (omega arith)
