-- ===== src/Flash/Range/Alias.antt =====
-- The alias of the flash at 0, and the ranges that are accepted (src/flash.c).
use libopenwch_tools.Prelude.{
  ℕ, ◌+◌, ◌*◌, ◌/◌, ◌^◌, ◌<◌, ◌≤◌, ◌≡◌, refl, sym, ◌∙◌, true, bit_and, bit_or, arith, get_elem?,
  some, All, All_at, Bool-cases, ltb, inl, inr,
}
use libopenwch_tools.Prelude.Bits.{bit_and_high, bit_or_comm, bit_or_multiple}
use libopenwch_tools.Target.{Chip, chips}
use libopenwch_tools.Flash.Range.{normalise, range_ok}

top_byte : (a : ℕ) → a < 2 ^ 32 → bit_and a 0xff00_0000 ≡ a / 2 ^ 24 * 2 ^ 24
top_byte a h = bit_and_high 24 32 a (omega arith) h

-- Below 2^24, the bit of the flash's base is free.
alias_or : (a : ℕ) → a < 2 ^ 24 → bit_or a 0x0800_0000 ≡ a + 0x0800_0000
alias_or a low =
    bit_or_comm a 0x0800_0000 ∙ bit_or_multiple 24 0x0800_0000 a (omega arith) low ∙ omega arith

pub normalise-low :
    (c : Chip) (a : ℕ) → c.flash_base ≡ 0x0800_0000 → a < 2 ^ 24 → normalise c a ≡ a + 0x0800_0000
unfolding normalise
normalise-low c a base low =
    let e : bit_and a 0xff00_0000 ≡ 0 = omega (arith, top_byte a) in rw (base, e) (alias_or a low)

pub normalise-high : (c : Chip) (a : ℕ) → 2 ^ 24 ≤ a → a < 2 ^ 32 → normalise c a ≡ a
unfolding normalise
normalise-high c a high fits =
    let e : bit_and a 0xff00_0000 ≡ a / 2 ^ 24 * 2 ^ 24 = top_byte a fits in rw e (ground arith)

pub normalise-Word : (c : Chip) (a : ℕ) → a < 2 ^ 32 → normalise c a < 2 ^ 32
normalise-Word c a fits = elim (Bool-cases (ltb a (2 ^ 24))) [
  | inl low ↦ let e = alias_or a (ground arith) in unfold normalise in ground (arith, e)
  | inr high ↦ let e = normalise-high c a (ground arith) fits in omega (arith, e)
]

-- Where the flash of a part is based at 0x08000000, a range at the alias below 2^24 is accepted
-- exactly where the same range at its own address is, and both name the same first byte.
pub range_ok-normalise :
    (c : Chip) (a n : ℕ)
    → c.flash_base ≡ 0x0800_0000
    → a < 2 ^ 24
    → (range_ok c a n ≡ range_ok c (a + 0x0800_0000) n)
      × (normalise c a ≡ normalise c (a + 0x0800_0000))
unfolding range_ok
range_ok-normalise c a n base low =
    let e : normalise c a ≡ normalise c (a + 0x0800_0000) =
      normalise-low c a base low
      ∙ sym (normalise-high c (a + 0x0800_0000) (omega arith) (omega arith)) in
    (rw e refl, e)

-- The flash of a part ends below 2^32.
abbrev IsPlaced : Chip → Type 0
IsPlaced c = c.flash_base + c.flash_size < 2 ^ 32

placed : All IsPlaced chips
unfolding chips
placed = ground arith

-- An accepted range on a part of the table, its address of 32 bits and its length that of an object
-- in memory, below 2^63, lies between the flash's base and its end and ends below 2^32, so that the
-- sums the flash algorithms make on 32 bits do not wrap.
pub range_ok-bound :
    (c : Chip) (i a n : ℕ)
    → get_elem? chips i ≡ some c
    → a < 2 ^ 32
    → n < 2 ^ 63
    → range_ok c a n ≡ true
    → (c.flash_base ≤ normalise c a)
      × (normalise c a + n ≤ c.flash_base + c.flash_size)
      × (normalise c a + n < 2 ^ 32)
unfolding range_ok
range_ok-bound c i a n entry word size ok =
    let p = All_at IsPlaced chips i c placed entry in
    let w = normalise-Word c a word in ground (arith, w)
