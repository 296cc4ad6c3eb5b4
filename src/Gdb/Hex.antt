-- ===== src/Gdb/Hex.antt =====
-- Hexadecimal text (src/gdb_server.c). A text is the list of its bytes, and a read at the terminator
-- is 0.
pub mod Order
use libopenwch_tools.Prelude.{
  ℕ, zero, suc, ◌+◌, ◌-◌, ◌/◌, ◌%◌, ◌<◌, ◌≡◌, refl, ap, ◌∙◌, Bool, true, false, ◌&&◌, Option, none,
  some, List, [], ◌∷◌, ◌++◌, arith, sym, ◌⊎◌, inl, inr, leb, if◌then◌else◌, get_or, drop, length,
  codes, bit_and, bit_or, u8, u32, ◌<<<◌, ◌>>>◌, All,
}
use libopenwch_tools.Prelude.Bits.{bit_or_multiple, bit_and_mask}
use mathlib.Core.Path.{subst}

-- `hex_nibble`; `none` is -1.
unfoldable pub hex_nibble : ℕ → Option ℕ
hex_nibble c =
    if leb b'0' c && leb c b'9'
    then some (c - b'0')
    else if leb b'a' c && leb c b'f'
    then some (c - b'a' + 10)
    else if leb b'A' c && leb c b'F'
    then some (c - b'A' + 10)
    else none

-- The loop of `parse_hex_u32`, with the value so far and whether there was any digit: the value and
-- the rest of the text.
parse_digits : ℕ → Bool → List ℕ → Option (ℕ × List ℕ)
parse_digits result any [] = if any then some (result, []) else none
parse_digits result any (c ∷ text) = elim (hex_nibble c) [
  | none ↦ if any then some (result, c ∷ text) else none
  | some nibble ↦ parse_digits (bit_or (u32 (result <<< 4)) nibble) true text
]

-- `parse_hex_u32`
unfoldable pub parse_hex_u32 : List ℕ → Option (ℕ × List ℕ)
unfolding parse_digits
parse_hex_u32 text = parse_digits 0 false text

cons_byte : Option ℕ → Option ℕ → Option (List ℕ) → Option (List ℕ)
cons_byte (some high) (some low) (some bytes) = some (u8 (bit_or (high <<< 4) low) ∷ bytes)
cons_byte (some high) (some low) none = none
cons_byte (some high) none rest = none
cons_byte none low rest = none

-- `parse_hex_bytes`
pub parse_hex_bytes : ℕ → List ℕ → Option (List ℕ)
unfolding cons_byte
parse_hex_bytes zero text = some []
parse_hex_bytes (suc count) text =
    cons_byte (hex_nibble (get_or text 0 0)) (hex_nibble (get_or text 1 0))
      (parse_hex_bytes count (drop 2 text))

abbrev pub hex_digit : ℕ → ℕ
hex_digit i = get_or (codes "0123456789abcdef") i 0

-- `format_hex_byte`
unfoldable pub format_hex_byte : ℕ → List ℕ
format_hex_byte value = hex_digit (value >>> 4) ∷ hex_digit (bit_and value 0xf) ∷ []

-- `format_hex_u32_le`
pub format_hex_u32_le : ℕ → List ℕ
format_hex_u32_le value =
    format_hex_byte (u8 value)
    ++ (format_hex_byte (u8 (value >>> 8))
        ++ (format_hex_byte (u8 (value >>> 16)) ++ format_hex_byte (u8 (value >>> 24))))

-- A buffer printed byte after byte, as the replies with memory do.
unfoldable pub format_hex_bytes : List ℕ → List ℕ
format_hex_bytes [] = []
format_hex_bytes (b ∷ bytes) = format_hex_byte b ++ format_hex_bytes bytes

-- A property at each number below a bound.
abbrev Below : (ℕ → Type 0) → ℕ → Type 0
Below P zero = Unit
Below P (suc n) = P n × Below P n

below_lem : (P : ℕ → Type 0) (n i : ℕ) → Below P n → i < n → P i
below_lem P zero i h l = absurd (omega arith)
below_lem P (suc n) i h l = elim (compare_last n i l) [
  | inl e ↦ subst P (sym e) h.0
  | inr k ↦ below_lem P n i h.1 k
]
  where
    compare_last : (n i : ℕ) → i < suc n → (i ≡ n) ⊎ (i < n)
    compare_last n i l = ground arith

pub hex_nibble-hex_digit : (i : ℕ) → i < 16 → hex_nibble (hex_digit i) ≡ some i
unfolding hex_nibble
hex_nibble-hex_digit i h = below_lem (λ j. hex_nibble (hex_digit j) ≡ some j) 16 i (ground arith) h

-- The two digits of a byte are those of its halves.
pub hex_nibble-format :
    (b : ℕ)
    → b < 256
    → (hex_nibble (hex_digit (b >>> 4)) ≡ some (b / 16))
      × (hex_nibble (hex_digit (bit_and b 0xf)) ≡ some (b % 16))
hex_nibble-format b h =
    let e : bit_and b 0xf ≡ b % 16 = bit_and_mask 4 b in
    (
      hex_nibble-hex_digit (b / 16) (omega arith),
      rw e (hex_nibble-hex_digit (b % 16) (omega arith)),
    )

-- Bytes printed one after another are read back, whatever follows them.
pub parse_hex_bytes-format :
    (bytes tail : List ℕ)
    → All (λ b. b < 256) bytes
    → parse_hex_bytes (length bytes) (format_hex_bytes bytes ++ tail) ≡ some bytes
unfolding parse_hex_bytes format_hex_bytes format_hex_byte cons_byte
parse_hex_bytes-format [] tail h = refl
parse_hex_bytes-format (b ∷ bytes) tail h =
    let d = hex_nibble-format b h.0 in
    let join : u8 (bit_or ((b / 16) <<< 4) (b % 16)) ≡ b =
      ap u8 (bit_or_multiple 4 ((b / 16) <<< 4) (b % 16) (omega arith) (omega arith))
      ∙ omega (arith, h.0) in
    rw (d.0, d.1, parse_hex_bytes-format bytes tail h.1) (ap (λ x. some (x ∷ bytes)) join)
