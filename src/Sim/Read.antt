-- ===== src/Sim/Read.antt =====
-- Reads of the simulated flash.
use libopenwch_tools.Prelude.{
  ℕ, ◌+◌, ◌-◌, ◌*◌, ◌^◌, ◌<◌, ◌≤◌, ◌≡◌, refl, ap, ◌∙◌, false, arith, ltb, bit_or, ◌<<<◌, u32, u8,
  inl, inr, Bool-cases,
}
use libopenwch_tools.Prelude.Bits.{bit_or_field, bit_or_comm, bit_or-zero}
use libopenwch_tools.Status.{ok}
use libopenwch_tools.Dm.Memory.Block.{IsReadable, word_at}
use libopenwch_tools.Sim as Sim
use libopenwch_tools.Sim.{Sim, is_ctrl, is_flash, access_read, get_bytes, flash_offset}
use libopenwch_tools.Sim.Place.{is_ctrl_lem, is_flash_lem, flash_offset_lem}

get_byte-u8 : (f : ℕ → ℕ) (o : ℕ) → get_bytes 1 0 f o 0 ≡ u8 (f o)
unfolding get_bytes
get_byte-u8 f o =
    let e : o + 0 ≡ o = omega arith in
    let g : u8 (f (o + 0)) * 2 ^ (8 * 0) ≡ u8 (f (o + 0)) = omega arith in
    bit_or_comm 0 (u8 (f (o + 0)) * 2 ^ (8 * 0))
    ∙ bit_or-zero (u8 (f (o + 0)) * 2 ^ (8 * 0))
    ∙ g
    ∙ ap (λ x. u8 (f x)) e

pub get_byte : (f : ℕ → ℕ) (o : ℕ) → f o < 256 → get_bytes 1 0 f o 0 ≡ f o
get_byte f o h = get_byte-u8 f o ∙ omega arith

pub get_word :
    (f : ℕ → ℕ) (o : ℕ)
    → ((x : ℕ) → f x < 256)
    → get_bytes 4 0 f o 0 ≡ f o + f (o + 1) * 2 ^ 8 + f (o + 2) * 2 ^ 16 + f (o + 3) * 2 ^ 24
unfolding get_bytes
get_word f o bytes =
    let b0 = bytes o in
    let b1 = bytes (o + 1) in
    let b2 = bytes (o + 2) in
    let b3 = bytes (o + 3) in
    let e : bit_or 0 (u8 (f (o + 0)) <<< 0) ≡ f o = unfold get_bytes in get_byte f o b0 in
    let e1 : u8 (f (o + 1)) ≡ f (o + 1) = omega arith in
    let e2 : u8 (f (o + 2)) ≡ f (o + 2) = omega arith in
    let e3 : u8 (f (o + 3)) ≡ f (o + 3) = omega arith in
    (λ i. bit_or (bit_or (bit_or (e i) (e1 i <<< 8)) (e2 i <<< 16)) (e3 i <<< 24))
    ∙ rw (bit_or_field 8 8 (f o) (f (o + 1)) (omega arith) b1) (
        rw (bit_or_field 16 8 (f o + f (o + 1) * 2 ^ 8) (f (o + 2)) (omega arith) b2) (
          bit_or_field 24 8 (f o + f (o + 1) * 2 ^ 8 + f (o + 2) * 2 ^ 16) (f (o + 3)) (omega arith)
            (bytes (o + 3))))

pub get_half :
    (f : ℕ → ℕ) (o : ℕ) → ((x : ℕ) → f x < 256) → get_bytes 2 0 f o 0 ≡ f o + f (o + 1) * 2 ^ 8
unfolding get_bytes
get_half f o bytes =
    let e : bit_or 0 (u8 (f (o + 0)) <<< 0) ≡ f o = unfold get_bytes in get_byte f o (bytes o) in
    let b1 = bytes (o + 1) in
    let b0 = bytes o in
    let e1 : u8 (f (o + 1)) ≡ f (o + 1) = omega arith in
    (λ i. bit_or (e i) (e1 i <<< 8)) ∙ bit_or_field 8 8 (f o) (f (o + 1)) (omega arith) b1

below_ctrl : (a : ℕ) → a < 0x4000_0000 → is_ctrl a ≡ false
unfolding is_ctrl
below_ctrl a low = ground arith

-- A byte that is read below the controller is one.
pub read-byte : (a : ℕ) (s : Sim) → a < 0x4000_0000 → (Sim.read 0 a s).0 < 256
unfolding Sim.read
read-byte a s low = elim (Bool-cases (is_flash a)) [
  | inr f ↦ rw (below_ctrl a low, f) (omega arith)
  | inl f ↦ elim (Bool-cases (ltb s.flash_size (flash_offset a + 1))) [
    | inl g ↦ rw (below_ctrl a low, f, g) (omega arith)
    | inr g ↦
        let e = get_byte-u8 s.flash (flash_offset a) in rw (below_ctrl a low, f, g) (omega arith)
  ]
]

-- What the flash holds, by address.
abbrev pub held : (ℕ → ℕ) → ℕ → ℕ
held f a = f (a - 0x0800_0000)

module _ (s : Sim) (window : s.flash_size ≤ 2 ^ 24) (bytes : (x : ℕ) → s.flash x < 256) where
  read_byte :
      (a : ℕ)
      → 0x0800_0000 ≤ a
      → a < 0x0800_0000 + s.flash_size
      → access_read 0 a s ≡ (ok (held s.flash a), s)
  unfolding access_read
  read_byte a l h =
      let o : flash_offset a ≡ a - 0x0800_0000 = flash_offset_lem a l (omega arith) in
      let g : get_bytes 1 0 s.flash (flash_offset a) 0 ≡ held s.flash a =
        get_byte s.flash (flash_offset a) (bytes (flash_offset a)) ∙ ap s.flash o in
      let b = bytes (a - 0x0800_0000) in
      let v : u32 (get_bytes 1 0 s.flash (flash_offset a) 0) ≡ held s.flash a =
        ap (λ (n : ℕ). u32 n) g ∙ omega arith in
      let c : ltb s.flash_size (flash_offset a + 1) ≡ false = ground arith in
      rw (is_ctrl_lem a l (omega arith), is_flash_lem a l (omega arith), c) (λ i. (ok (v i), s))

  read_word :
      (a : ℕ)
      → 0x0800_0000 ≤ a
      → a + 4 ≤ 0x0800_0000 + s.flash_size
      → access_read 2 a s ≡ (ok (word_at (held s.flash) a), s)
  unfolding access_read
  read_word a l h =
      let o : flash_offset a ≡ a - 0x0800_0000 = flash_offset_lem a l (omega arith) in
      let o1 : flash_offset a + 1 ≡ a + 1 - 0x0800_0000 = omega arith in
      let o2 : flash_offset a + 2 ≡ a + 2 - 0x0800_0000 = omega arith in
      let o3 : flash_offset a + 3 ≡ a + 3 - 0x0800_0000 = omega arith in
      let g : get_bytes 4 0 s.flash (flash_offset a) 0 ≡ word_at (held s.flash) a =
        get_word s.flash (flash_offset a) bytes ∙ (λ i.
          s.flash (o i)
          + s.flash (o1 i) * 2 ^ 8
          + s.flash (o2 i) * 2 ^ 16
          + s.flash (o3 i) * 2 ^ 24) in
      let b0 = bytes (a - 0x0800_0000) in
      let b1 = bytes (a + 1 - 0x0800_0000) in
      let b2 = bytes (a + 2 - 0x0800_0000) in
      let b3 = bytes (a + 3 - 0x0800_0000) in
      let v : u32 (get_bytes 4 0 s.flash (flash_offset a) 0) ≡ word_at (held s.flash) a =
        ap (λ (n : ℕ). u32 n) g ∙ omega arith in
      let c : ltb s.flash_size (flash_offset a + 4) ≡ false = ground arith in
      rw (is_ctrl_lem a l (omega arith), is_flash_lem a l (omega arith), c) (λ i. (ok (v i), s))

  -- The simulated core reads what the flash holds, and a read changes nothing.
  pub access_read-IsReadable :
      IsReadable access_read (λ t. t ≡ s) (held s.flash) 0x0800_0000 (0x0800_0000 + s.flash_size)
  access_read-IsReadable = record {
    below = omega arith;
    byte_lt = λ a. bytes (a - 0x0800_0000);
    byte = λ a t at l h. (
      held s.flash a,
      s,
      ap (access_read 0 a) at ∙ read_byte a l h,
      (let b = bytes (a - 0x0800_0000) in omega arith),
      refl,
    );
    word = λ a t at l h aligned. (s, ap (access_read 2 a) at ∙ read_word a l h, refl);
  }
