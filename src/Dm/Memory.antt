-- ===== src/Dm/Memory.antt =====
-- Target memory through the program buffer (src/dm.c).
pub mod Block
pub mod Alike
use libopenwch_tools.Prelude.{
  ℕ, zero, suc, ◌+◌, ◌*◌, ◌/◌, ◌%◌, ◌^◌, Bool, true, false, List, [], ◌∷◌, ◌++◌, ◌==◌,
  if◌then◌else◌, bit_and, u8, u32, ◌>>>◌,
}
use libopenwch_tools.Status.{Action, ⊤, pure, ◌>>=◌, ◌>>◌}
use libopenwch_tools.Dm.Encode.{write_program, read_program}
use libopenwch_tools.Dm.Command.{Dmi, run_write, run_read}

-- The four bytes of a word, the lowest first.
unfoldable pub split_word : ℕ → List ℕ
split_word word =
    bit_and word 0xff
    ∷ bit_and (word >>> 8) 0xff
    ∷ bit_and (word >>> 16) 0xff
    ∷ bit_and (word >>> 24) 0xff
    ∷ []

module _ {S : Type 0} (read_sized : ℕ → ℕ → Action S ℕ) where
  -- The last loop of `wl_dm_read_block`: a byte for each round trip. The section's parameter is
  -- `dm_read_sized`.
  unfoldable pub read_bytes : ℕ → ℕ → Action S (List ℕ)
  read_bytes zero address = pure []
  read_bytes (suc n) address = do
    word ← read_sized 0 address
    rest ← read_bytes n (u32 (address + 1))
    pure (bit_and word 0xff ∷ rest)

  -- The middle loop: a word for each four bytes, and then the last loop.
  unfoldable pub read_words : ℕ → ℕ → Action S (List ℕ)
  unfolding read_bytes split_word
  read_words (suc (suc (suc (suc n)))) address = do
    word ← read_sized 2 address
    rest ← read_words n (u32 (address + 4))
    pure (split_word word ++ rest)
  read_words n address = read_bytes n address

  -- `wl_dm_read_block`: bytes up to a word boundary, words, bytes. The result is the buffer.
  unfoldable pub read_block_by : ℕ → ℕ → Action S (List ℕ)
  unfolding read_words
  read_block_by address zero = pure []
  read_block_by address (suc n) = elim (bit_and address 0x3 == 0) [
    | true ↦ read_words (suc n) address
    | false ↦ (do
      word ← read_sized 0 address
      rest ← read_block_by (u32 (address + 1)) n
      pure (bit_and word 0xff ∷ rest))
  ]

module _ {S : Type 0} (D : Dmi S) where
  -- `wl_dm_write32`, `wl_dm_write16` and `wl_dm_write8`
  unfoldable pub write32 : ℕ → ℕ → Action S ⊤
  write32 address value = run_write D (write_program 2) address value

  unfoldable pub write16 : ℕ → ℕ → Action S ⊤
  write16 address value = run_write D (write_program 1) address value

  unfoldable pub write8 : ℕ → ℕ → Action S ⊤
  write8 address value = run_write D (write_program 0) address value

  -- `dm_read_sized`
  unfoldable pub read_sized : ℕ → ℕ → Action S ℕ
  read_sized size_log2 address = run_read D (read_program size_log2) address

  -- `wl_dm_read32` and `wl_dm_read16`
  unfoldable pub read32 : ℕ → Action S ℕ
  unfolding read_sized
  read32 address = read_sized 2 address

  pub read16 : ℕ → Action S ℕ
  unfolding read_sized
  read16 address = do word ← read_sized 1 address; pure (bit_and word 0xffff)

  unfoldable pub read_block : ℕ → ℕ → Action S (List ℕ)
  unfolding read_block_by read_sized
  read_block address length = read_block_by read_sized address length
