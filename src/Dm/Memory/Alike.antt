-- ===== src/Dm/Memory/Alike.antt =====
-- Reading a block (src/dm.c) by two readers of bytes and words that answer alike.
use libopenwch_tools.Prelude.{
  ℕ, zero, suc, ◌+◌, ◌^◌, ◌<◌, ◌≤◌, ◌≡◌, true, false, List, [], ◌∷◌, ◌++◌, ◌==◌, bit_and, u32,
  ◌>>>◌, All, arith, length, ap, refl,
}
use libopenwch_tools.Prelude.Bits.{bit_and_mask}
use libopenwch_tools.Status.{Action, pure, ◌>>=◌}
use libopenwch_tools.Status.Simulates.{Simulates, Any, pure-Simulates, bind-Simulates}
use libopenwch_tools.Dm.Memory.{split_word, read_bytes, read_words, read_block_by}

abbrev pub Bytes : List ℕ → Type 0
Bytes = All (λ b. b < 256)

-- So many bytes.
abbrev pub Block : ℕ → List ℕ → Type 0
Block n bytes = Bytes bytes × (length bytes ≡ n)

low_byte : (x : ℕ) → bit_and x 0xff < 256
low_byte x = let e = bit_and_mask 8 x in omega arith

one_more : (n b : ℕ) (rest : List ℕ) → Block n rest → Block (suc n) (bit_and b 0xff ∷ rest)
one_more n b rest h = ((low_byte b, h.0), ap suc h.1)

split_word-Block :
    (n word : ℕ) (rest : List ℕ)
    → Block n rest
    → Block (suc (suc (suc (suc n)))) (split_word word ++ rest)
unfolding split_word
split_word-Block n word rest h = (
  (low_byte word, (low_byte (word >>> 8), (low_byte (word >>> 16), (low_byte (word >>> 24), h.0)))),
  omega (arith, h.1),
)

module _ {S T : Type 0} (R : S → T → Type 0) (p : ℕ → ℕ → Action S ℕ) (q : ℕ → ℕ → Action T ℕ)
    (bound : ℕ) (small : bound < 2 ^ 32)
    (sized : (size a : ℕ) → size ≤ 2 → a < bound → Simulates R (Any R) (p size a) (q size a)) where
  read_bytes-Alike :
      (n a : ℕ) → a + n ≤ bound → Simulates R (Block n) (read_bytes p n a) (read_bytes q n a)
  unfolding read_bytes
  read_bytes-Alike zero a h = pure-Simulates R [] (tt, refl)
  read_bytes-Alike (suc n) a h = bind-Simulates R (sized 0 a (omega arith) (omega arith)) (λ word _.
      bind-Simulates R (read_bytes-Alike n (u32 (a + 1)) (omega arith))
        (λ rest k. pure-Simulates R (bit_and word 0xff ∷ rest) (one_more n word rest k)))

  read_words-Alike :
      (n a : ℕ) → a + n ≤ bound → Simulates R (Block n) (read_words p n a) (read_words q n a)
  unfolding read_words
  read_words-Alike zero a h = read_bytes-Alike zero a h
  read_words-Alike (suc zero) a h = read_bytes-Alike (suc zero) a h
  read_words-Alike (suc (suc zero)) a h = read_bytes-Alike (suc (suc zero)) a h
  read_words-Alike (suc (suc (suc zero))) a h = read_bytes-Alike (suc (suc (suc zero))) a h
  read_words-Alike (suc (suc (suc (suc n)))) a h =
      bind-Simulates R (sized 2 a (omega arith) (omega arith)) (λ word _.
        bind-Simulates R (read_words-Alike n (u32 (a + 4)) (omega arith))
          (λ rest k. pure-Simulates R (split_word word ++ rest) (split_word-Block n word rest k)))

  -- The same bytes are read from either, below the bound.
  pub read_block_by-Alike :
      (n a : ℕ) → a + n ≤ bound → Simulates R (Block n) (read_block_by p a n) (read_block_by q a n)
  unfolding read_block_by
  read_block_by-Alike zero a h = pure-Simulates R [] (tt, refl)
  read_block_by-Alike (suc n) a h =
      elim (bit_and a 0x3 == 0)
        as (λ b.
          Simulates R (Block (suc n))
            (elim b [
              | true ↦ read_words p (suc n) a
              | false ↦ p 0 a >>= (λ word.
                  read_block_by p (u32 (a + 1)) n >>= (λ rest. pure (bit_and word 0xff ∷ rest)))
            ])
            (elim b [
              | true ↦ read_words q (suc n) a
              | false ↦ q 0 a >>= (λ word.
                  read_block_by q (u32 (a + 1)) n >>= (λ rest. pure (bit_and word 0xff ∷ rest)))
            ])) [
              | true ↦ read_words-Alike (suc n) a h
              | false ↦ bind-Simulates R (sized 0 a (omega arith) (omega arith)) (λ word _.
                  bind-Simulates R (read_block_by-Alike n (u32 (a + 1)) (omega arith)) (λ rest k.
                    pure-Simulates R (bit_and word 0xff ∷ rest) (one_more n word rest k)))
            ]
