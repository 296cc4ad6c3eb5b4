-- ===== src/Dm/Memory/Block.antt =====
-- Reading a run of memory, where single reads give what the memory holds.
use libopenwch_tools.Prelude.{
  ℕ, zero, suc, ◌+◌, ◌*◌, ◌%◌, ◌^◌, ◌≤◌, ◌<◌, ◌≡◌, refl, sym, ap, ◌∙◌, List, [], ◌∷◌, ◌++◌, arith,
  ◌==◌, length, get_or, bit_and, u32, ◌>>>◌, Bool-cases, inl, inr, ==→eq,
}
use libopenwch_tools.Prelude.Bits.{bit_and_mask}
use libopenwch_tools.Status.{Action, ok, pure, go_on, ◌>>=◌}
use libopenwch_tools.Dm.Memory.{split_word, read_bytes, read_words, read_block_by}

-- The bytes at the `n` addresses from `a` on.
abbrev pub bytes_from : (ℕ → ℕ) → ℕ → ℕ → List ℕ
bytes_from mem a zero = []
bytes_from mem a (suc n) = mem a ∷ bytes_from mem (a + 1) n

pub length-bytes_from : (f : ℕ → ℕ) (a n : ℕ) → length (bytes_from f a n) ≡ n
length-bytes_from f a zero = refl
length-bytes_from f a (suc n) = ap suc (length-bytes_from f (a + 1) n)

pub get_or-bytes_from : (f : ℕ → ℕ) (a n i : ℕ) → i < n → get_or (bytes_from f a n) i 0 ≡ f (a + i)
get_or-bytes_from f a zero i h = absurd (omega arith)
get_or-bytes_from f a (suc n) zero h = let e : a ≡ a + 0 = omega arith in ap f e
get_or-bytes_from f a (suc n) (suc i) h =
    let e : a + 1 + i ≡ a + suc i = omega arith in
    get_or-bytes_from f (a + 1) n i (omega arith) ∙ ap f e

abbrev pub word_at : (ℕ → ℕ) → ℕ → ℕ
word_at mem a = mem a + mem (a + 1) * 2 ^ 8 + mem (a + 2) * 2 ^ 16 + mem (a + 3) * 2 ^ 24

-- What reads of a memory `mem` between `lo` and `hi` give: in a state that satisfies `Inv`, a byte
-- read has the byte in its low eight bits, an aligned word read the four bytes with the lowest
-- first, and `Inv` stays.
pub record IsReadable {S : Type 0} (read_sized : ℕ → ℕ → Action S ℕ) (Inv : S → Type 0)
    (mem : ℕ → ℕ) (lo hi : ℕ) : Type 0 where
  pub below : hi < 2 ^ 32
  pub byte_lt : (a : ℕ) → mem a < 256
  pub byte :
      (a : ℕ) (s : S)
      → Inv s
      → lo ≤ a
      → a < hi
      → (w : ℕ) × (s' : S) × (read_sized 0 a s ≡ (ok w, s')) × (w % 256 ≡ mem a) × Inv s'
  pub word :
      (a : ℕ) (s : S)
      → Inv s
      → lo ≤ a
      → a + 4 ≤ hi
      → a % 4 ≡ 0
      → (s' : S) × (read_sized 2 a s ≡ (ok (word_at mem a), s')) × Inv s'

module _ {S : Type 0} {read_sized : ℕ → ℕ → Action S ℕ} {Inv : S → Type 0} {mem : ℕ → ℕ} {lo hi : ℕ}
    (readable : IsReadable read_sized Inv mem lo hi) where
  -- A read succeeds with these bytes.
  abbrev Reads : Action S (List ℕ) → List ℕ → S → Type 0
  Reads m bytes s = (s' : S) × (m s ≡ (ok bytes, s')) × Inv s'

  byte-Reads :
      (rest : Action S (List ℕ)) (a : ℕ) (bytes : List ℕ) (s : S)
      → Inv s
      → lo ≤ a
      → a < hi
      → ((s' : S) → Inv s' → Reads rest bytes s')
      → Reads
          (do word ← read_sized 0 a; after ← rest; pure (bit_and word 0xff ∷ after))
          (mem a ∷ bytes)
          s
  byte-Reads rest a bytes s inv l h k =
      let r = readable.byte a s inv l h in
      let q = k r.1 r.4 in
      let e : bit_and r.0 0xff ≡ mem a = bit_and_mask 8 r.0 ∙ r.3 in
      (
        q.0,
        ap (go_on (λ word. (do after ← rest; pure (bit_and word 0xff ∷ after)))) r.2
            ∙ ap (go_on (λ (after : List ℕ). pure (bit_and r.0 0xff ∷ after))) q.1
            ∙ ap (λ (b : ℕ). (ok (b ∷ bytes), q.0)) e,
        q.2,
      )

  read_bytes-Reads :
      (n a : ℕ) (s : S)
      → Inv s
      → lo ≤ a
      → a + n ≤ hi
      → Reads (read_bytes read_sized n a) (bytes_from mem a n) s
  unfolding read_bytes
  read_bytes-Reads zero a s inv l h = (s, refl, inv)
  read_bytes-Reads (suc n) a s inv l h =
      byte-Reads (read_bytes read_sized n (u32 (a + 1))) a (bytes_from mem (a + 1) n) s inv l
        (omega arith)
        (λ s' inv'.
          let e : u32 (a + 1) ≡ a + 1 = omega (arith, readable.below) in
          rw e (read_bytes-Reads n (a + 1) s' inv' (omega arith) (omega arith)))

  split_word-word_at :
      (a : ℕ) → split_word (word_at mem a) ≡ mem a ∷ mem (a + 1) ∷ mem (a + 2) ∷ mem (a + 3) ∷ []
  unfolding split_word
  split_word-word_at a =
      let b0 = readable.byte_lt a in
      let b1 = readable.byte_lt (a + 1) in
      let b2 = readable.byte_lt (a + 2) in
      let b3 = readable.byte_lt (a + 3) in
      let w = word_at mem a in
      rw
        (
          bit_and_mask 8 w,
          bit_and_mask 8 (w >>> 8),
          bit_and_mask 8 (w >>> 16),
          bit_and_mask 8 (w >>> 24),
        )
        (let e0 : w % 2 ^ 8 ≡ mem a = omega arith in
          let e1 : (w >>> 8) % 2 ^ 8 ≡ mem (a + 1) = omega arith in
          let e2 : (w >>> 16) % 2 ^ 8 ≡ mem (a + 2) = omega arith in
          let e3 : (w >>> 24) % 2 ^ 8 ≡ mem (a + 3) = omega arith in
          λ i. e0 i ∷ e1 i ∷ e2 i ∷ e3 i ∷ [])

  bytes_from-split_word :
      (n a : ℕ)
      → split_word (word_at mem a) ++ bytes_from mem (a + 4) n
        ≡ bytes_from mem a (suc (suc (suc (suc n))))
  bytes_from-split_word n a =
      let e2 : a + 1 + 1 ≡ a + 2 = omega arith in
      let e3 : a + 2 + 1 ≡ a + 3 = omega arith in
      let e4 : a + 3 + 1 ≡ a + 4 = omega arith in
      rw (e2, e3, e4) (ap (λ bytes. bytes ++ bytes_from mem (a + 4) n) (split_word-word_at a))

  read_words-Reads :
      (n a : ℕ) (s : S)
      → Inv s
      → lo ≤ a
      → a + n ≤ hi
      → a % 4 ≡ 0
      → Reads (read_words read_sized n a) (bytes_from mem a n) s
  unfolding read_words
  read_words-Reads (suc (suc (suc (suc n)))) a s inv l h al =
      let r = readable.word a s inv l (omega arith) al in
      let e : u32 (a + 4) ≡ a + 4 = omega (arith, readable.below) in
      let q = read_words-Reads n (a + 4) r.0 r.2 (omega arith) (omega arith) (omega arith) in
      (
        q.0,
        ap
              (go_on (λ w. (do
                rest ← read_words read_sized n (u32 (a + 4))
                pure (split_word w ++ rest))))
              r.1
            ∙ ap
                (λ next.
                  go_on (λ rest. pure (split_word (word_at mem a) ++ rest))
                    (read_words read_sized n next r.0))
                e
            ∙ ap (go_on (λ rest. pure (split_word (word_at mem a) ++ rest))) q.1
            ∙ ap (λ bytes. (ok bytes, q.0)) (bytes_from-split_word n a),
        q.2,
      )
  read_words-Reads zero a s inv l h al = read_bytes-Reads zero a s inv l h
  read_words-Reads (suc zero) a s inv l h al = read_bytes-Reads (suc zero) a s inv l h
  read_words-Reads (suc (suc zero)) a s inv l h al = read_bytes-Reads (suc (suc zero)) a s inv l h
  read_words-Reads (suc (suc (suc zero))) a s inv l h al =
      read_bytes-Reads (suc (suc (suc zero))) a s inv l h

  -- Whatever the address and the length, bytes first, aligned words and the bytes left make up a read
  -- of exactly the memory's bytes, in order, where the range is readable.
  pub read_block_by-Reads :
      (n a : ℕ) (s : S)
      → Inv s
      → lo ≤ a
      → a + n ≤ hi
      → (s' : S) × (read_block_by read_sized a n s ≡ (ok (bytes_from mem a n), s')) × Inv s'
  unfolding read_block_by
  read_block_by-Reads zero a s inv l h = (s, refl, inv)
  read_block_by-Reads (suc n) a s inv l h =
      let aligned : bit_and a 0x3 ≡ a % 4 = bit_and_mask 2 a in
      elim (Bool-cases (bit_and a 0x3 == 0)) [
        | inl e ↦
            rw (read_block_by, e)
              (read_words-Reads (suc n) a s inv l h (sym aligned ∙ ==→eq (bit_and a 0x3) 0 e))
        | inr e ↦
            rw (read_block_by, e)
              (byte-Reads (read_block_by read_sized (u32 (a + 1)) n) a (bytes_from mem (a + 1) n) s
                inv l (omega arith)
                (λ s' inv'.
                  let e : u32 (a + 1) ≡ a + 1 = omega (arith, readable.below) in
                  rw e (read_block_by-Reads n (a + 1) s' inv' (omega arith) (omega arith))))
      ]
