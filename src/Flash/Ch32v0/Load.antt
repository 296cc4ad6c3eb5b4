-- ===== src/Flash/Ch32v0/Load.antt =====
-- Filling the controller's page buffer, word by word (src/flash_ch32v0.c).
use libopenwch_tools.Prelude.{
  ℕ, suc, ◌+◌, ◌-◌, ◌*◌, ◌%◌, ◌^◌, ◌<◌, ◌≤◌, ◌≡◌, refl, ap, ◌∙◌, List, [], ◌∷◌, arith, ◌==◌, ltb,
  if◌then◌else◌, bit_and, ◌>>>◌, u32, get_or, length, All, Bool-cases, inl, inr, ==→eq, ltb→lt,
}
use libopenwch_tools.Prelude.Bits.{bit_and_mask, bit_or_field}
use libopenwch_tools.Status.{ok, go_on}
use libopenwch_tools.Sim.{access, put, put_bytes, flash_offset}
use libopenwch_tools.Sim.Loops.{within}
use libopenwch_tools.Sim.Place.{is_ctrl_lem, is_flash_lem, flash_offset_lem}
use libopenwch_tools.Flash.Ch32v0.{join_word, load_words}
use libopenwch_tools.Flash.Ch32v0.Steps.{resting, load_lem}

pub join_word-sum :
    (a b c d : ℕ)
    → a < 256
    → b < 256
    → c < 256
    → d < 256
    → join_word a b c d ≡ a + b * 2 ^ 8 + c * 2 ^ 16 + d * 2 ^ 24
unfolding join_word
join_word-sum a b c d ha hb hc hd = rw (bit_or_field 8 8 a b (omega arith) hb) (
    rw (bit_or_field 16 8 (a + b * 2 ^ 8) c (omega arith) hc)
      (bit_or_field 24 8 (a + b * 2 ^ 8 + c * 2 ^ 16) d (omega arith) hd))

-- The bytes put one after another from place `k` on.
abbrev pub fill : (ℕ → ℕ) → ℕ → List ℕ → ℕ → ℕ
fill f k [] = f
fill f k (b ∷ bytes) = fill (put f k b) (k + 1) bytes

put_bytes-join_word :
    (f : ℕ → ℕ) (k a b c d : ℕ)
    → a < 256
    → b < 256
    → c < 256
    → d < 256
    → put_bytes 4 0 f k (join_word a b c d)
      ≡ put (put (put (put f k a) (k + 1) b) (k + 2) c) (k + 3) d
unfolding put_bytes
put_bytes-join_word f k a b c d ha hb hc hd =
    let w = join_word a b c d in
    let s = join_word-sum a b c d ha hb hc hd in
    let e0 : bit_and (w >>> 0) 0xff ≡ a = bit_and_mask 8 (w >>> 0) ∙ omega arith in
    let e1 : bit_and (w >>> 8) 0xff ≡ b = bit_and_mask 8 (w >>> 8) ∙ omega arith in
    let e2 : bit_and (w >>> 16) 0xff ≡ c = bit_and_mask 8 (w >>> 16) ∙ omega arith in
    let e3 : bit_and (w >>> 24) 0xff ≡ d = bit_and_mask 8 (w >>> 24) ∙ omega arith in
    let p0 : k + 0 ≡ k = omega arith in
    λ i. put (put (put (put f (p0 i) (e0 i)) (k + 1) (e1 i)) (k + 2) (e2 i)) (k + 3) (e3 i)

pub fill_lem :
    (bytes : List ℕ) (f : ℕ → ℕ) (k x : ℕ)
    → fill f k bytes x ≡ (if within k (length bytes) x then get_or bytes (x - k) 0 else f x)
fill_lem [] f k x = ground arith
fill_lem (b ∷ bytes) f k x = fill_lem bytes (put f k b) (k + 1) x ∙ first
  where
    later : k < x → get_or (b ∷ bytes) (x - k) 0 ≡ get_or bytes (x - (k + 1)) 0
    later h = let e : x - k ≡ suc (x - (k + 1)) = omega arith in ap (λ j. get_or (b ∷ bytes) j 0) e

    here : x ≡ k → get_or (b ∷ bytes) (x - k) 0 ≡ b
    here h = let e : x - k ≡ 0 = omega arith in ap (λ j. get_or (b ∷ bytes) j 0) e

    first :
        (if within (k + 1) (length bytes) x then get_or bytes (x - (k + 1)) 0 else put f k b x)
        ≡ (if within k (suc (length bytes)) x then get_or (b ∷ bytes) (x - k) 0 else f x)
    first = elim (Bool-cases (x == k)) [
      | inl e ↦ let h = here (==→eq x k e) in ground (arith, h)
      | inr e ↦ elim (Bool-cases (ltb k x)) [
        | inl l ↦ let h = later (ltb→lt k x l) in ground (arith, h)
        | inr l ↦ ground arith
      ]
    ]

module _ (flash : ℕ → ℕ) (size addr erases programs page : ℕ) (low : 0x0800_0000 ≤ page)
    (fits : page + 64 ≤ 0x0800_0000 + size) (window : size ≤ 2 ^ 24) (aligned : page % 64 ≡ 0) where
  -- The words of a list of bytes fill the page buffer from the place of the first address on.
  pub load_words_lem :
      (m : ℕ) (bytes : List ℕ) (k : ℕ) (page_buf : ℕ → ℕ)
      → length bytes ≡ 4 * m
      → k + 4 * m ≤ 64
      → k % 4 ≡ 0
      → All (λ b. b < 256) bytes
      → load_words access bytes (page + k) (resting flash size page_buf addr erases programs)
        ≡ (ok tt, resting flash size (fill page_buf k bytes) addr erases programs)
  unfolding load_words
  load_words_lem m [] k page_buf len reach word all = refl
  load_words_lem m (a ∷ []) k page_buf len reach word all = absurd (omega arith)
  load_words_lem m (a ∷ b ∷ []) k page_buf len reach word all = absurd (omega arith)
  load_words_lem m (a ∷ b ∷ c ∷ []) k page_buf len reach word all = absurd (omega arith)
  load_words_lem m (a ∷ b ∷ c ∷ d ∷ bytes) k page_buf len reach word all =
      let A : ℕ = page + k in
      let w : ℕ = join_word a b c d in
      let n : suc (length bytes) ≤ 4 * m = omega arith in
      let o : flash_offset A ≡ A - 0x0800_0000 = flash_offset_lem A (omega arith) (omega arith) in
      let place : bit_and (flash_offset A) 0x3f ≡ k =
        bit_and_mask 6 (flash_offset A) ∙ omega arith in
      let r =
        load_lem flash size page_buf addr erases programs A w
          (is_ctrl_lem A (omega arith) (omega arith)) (is_flash_lem A (omega arith) (omega arith))
          (omega arith) (omega arith) in
      let next : u32 (A + 4) ≡ page + (k + 4) = omega arith in
      let buf : ℕ → ℕ = put (put (put (put page_buf k a) (k + 1) b) (k + 2) c) (k + 3) d in
      let e : put_bytes 4 0 page_buf (bit_and (flash_offset A) 0x3f) w ≡ buf =
        ap (λ j. put_bytes 4 0 page_buf j w) place
        ∙ put_bytes-join_word page_buf k a b c d all.0 all.1.0 all.1.1.0 all.1.1.1.0 in
      let e2 : k + 2 ≡ k + 1 + 1 = omega arith in
      let e3 : k + 3 ≡ k + 1 + 1 + 1 = omega arith in
      let e4 : k + 4 ≡ k + 1 + 1 + 1 + 1 = omega arith in
      ap (go_on (λ _. load_words access bytes (u32 (A + 4)))) r
      ∙ ap (λ g. load_words access bytes (u32 (A + 4)) (resting flash size g addr erases programs))
          e
      ∙ ap (λ j. load_words access bytes j (resting flash size buf addr erases programs)) next
      ∙ load_words_lem (m - 1) bytes (k + 4) buf (omega arith) (omega arith) (omega arith)
          all.1.1.1.1
      ∙ (λ i. (
        ok tt,
        resting flash size
            (fill (put (put (put (put page_buf k a) (k + 1) b) (e2 i) c) (e3 i) d) (e4 i) bytes)
            addr erases programs,
      ))
