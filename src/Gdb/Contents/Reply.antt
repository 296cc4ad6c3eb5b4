-- ===== src/Gdb/Contents/Reply.antt =====
-- What the reply to an m packet says.
use libopenwch_tools.Prelude.{
  ℕ, zero, suc, ◌+◌, ◌*◌, ◌≤◌, ◌<◌, ◌≡◌, refl, sym, ap, ◌∙◌, false, some, List, [], ◌∷◌, drop,
  length, ltb, if◌then◌else◌, All, arith,
}
use mathlib.Core.List.{append-nil}
use libopenwch_tools.Status.{Action, ok, usage, pure, fail, go_on}
use libopenwch_tools.Dm.Command.{Dmi}
use libopenwch_tools.Dm.Memory.{read_sized, read_block}
use libopenwch_tools.Dm.Memory.Block.{
  IsReadable, bytes_from, length-bytes_from, read_block_by-Reads,
}
use libopenwch_tools.Gdb.Hex.{
  parse_hex_bytes, format_hex_byte, format_hex_bytes, parse_hex_bytes-format,
}
use libopenwch_tools.Gdb.Contents.{memory_max, parse_range, read_range, contents}

bytes_from-All :
    (mem : ℕ → ℕ) (a n : ℕ) → ((x : ℕ) → mem x < 256) → All (λ b. b < 256) (bytes_from mem a n)
bytes_from-All mem a zero h = tt
bytes_from-All mem a (suc n) h = (h a, bytes_from-All mem (a + 1) n h)

length-format_hex_bytes : (bytes : List ℕ) → length (format_hex_bytes bytes) ≡ 2 * length bytes
unfolding format_hex_bytes format_hex_byte
length-format_hex_bytes [] = refl
length-format_hex_bytes (b ∷ bytes) = omega (arith, length-format_hex_bytes bytes)

module _ {S : Type 0} (D : Dmi S) (Inv : S → Type 0) (mem : ℕ → ℕ) (lo hi : ℕ)
    (readable : IsReadable (read_sized D) Inv mem lo hi) where
  -- To an m packet for at most 1024 bytes of a range that can be read, the server replies with
  -- exactly two digits for each byte, which are read back as the bytes that the memory holds there,
  -- in order.
  pub contents-bytes :
      (payload rest : List ℕ) (address n : ℕ) (s : S)
      → parse_range (drop 1 payload) ≡ some (address, (n, rest))
      → n ≤ memory_max
      → Inv s
      → lo ≤ address
      → address + n ≤ hi
      → (text : List ℕ) × (s' : S) × (contents D payload s ≡ (ok text, s'))
        × (length text ≡ 2 * n)
        × (parse_hex_bytes n text ≡ some (bytes_from mem address n))
        × Inv s'
  unfolding contents read_range read_block
  contents-bytes payload rest address n s e small inv l h =
      let r = read_block_by-Reads readable n address s inv l h in
      let bytes = bytes_from mem address n in
      let run : Action S (List ℕ) =
        λ t. go_on (λ bytes. pure (format_hex_bytes bytes)) (read_block D address n t) in
      let len = length-bytes_from mem address n in
      let big : ltb memory_max n ≡ false = ground arith in
      (
        format_hex_bytes bytes,
        r.0,
        ap (λ o. read_range D o s) e
            ∙ ap (λ b. (if b then fail usage else run) s) big
            ∙ ap (go_on (λ bytes. pure (format_hex_bytes bytes))) r.1,
        length-format_hex_bytes bytes ∙ ap (λ k. 2 * k) len,
        ap (λ k. parse_hex_bytes k (format_hex_bytes bytes)) (sym len)
            ∙ ap (parse_hex_bytes (length bytes)) (sym (append-nil (format_hex_bytes bytes)))
            ∙ parse_hex_bytes-format bytes [] (bytes_from-All mem address n readable.byte_lt),
        r.2,
      )
