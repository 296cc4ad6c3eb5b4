-- ===== src/Sim/Loops.antt =====
-- The loops over the bytes of a page, in closed form.
use libopenwch_tools.Prelude.{
  ℕ, zero, suc, ◌+◌, ◌-◌, ◌<◌, ◌≤◌, ◌≡◌, refl, ap, ◌∙◌, fun_ext, Bool, ◌&&◌, arith, ◌==◌, ltb, leb,
  if◌then◌else◌, bit_and, u8, lt→ltb, eq→==, ==→eq, Bool-cases, inl, inr,
}
use libopenwch_tools.Prelude.Bits.{bit_and_mask, bit_and_comm}
use libopenwch_tools.Sim.{erase_bytes, program_bytes, put}

-- `x` is one of the `n` places from `a` on.
abbrev pub within : ℕ → ℕ → ℕ → Bool
within a n x = leb a x && ltb x (a + n)

pub erase_bytes_lem :
    (n i offset size : ℕ) (flash : ℕ → ℕ) (x : ℕ)
    → offset + i + n ≤ size
    → erase_bytes n i offset size flash x ≡ (if within (offset + i) n x then 0xff else flash x)
unfolding erase_bytes
erase_bytes_lem zero i offset size flash x fits = ground arith
erase_bytes_lem (suc n) i offset size flash x fits = rw (lt→ltb (offset + i) size (omega arith)) (
    erase_bytes_lem n (i + 1) offset size (put flash (offset + i) 0xff) x (omega arith)
    ∙ ground arith)

all_ones : (w : ℕ) → w < 256 → bit_and 0xff w ≡ w
all_ones w h = omega (arith, bit_and_comm 0xff w, bit_and_mask 8 w)

-- A step of the program loop on an erased byte.
program_bytes-step :
    (n i offset size : ℕ) (page_buf flash : ℕ → ℕ) (errors : ℕ)
    → offset + i < size
    → flash (offset + i) ≡ 0xff
    → page_buf i < 256
    → program_bytes (suc n) i offset size page_buf flash errors
      ≡ program_bytes n (i + 1) offset size page_buf (put flash (offset + i) (page_buf i)) errors
unfolding program_bytes
program_bytes-step n i offset size page_buf flash errors fits erased byte =
    let e : bit_and 0xff (page_buf i) ≡ page_buf i = all_ones (page_buf i) byte in
    let f : u8 (page_buf i) ≡ page_buf i = omega arith in
    rw (lt→ltb (offset + i) size fits, erased, e, f, eq→== (page_buf i) (page_buf i) refl) refl

-- On a page that is erased, programming takes the bytes of the buffer and counts no error.
pub program_bytes_lem :
    (n i offset size : ℕ) (page_buf flash : ℕ → ℕ) (errors : ℕ)
    → offset + i + n ≤ size
    → ((j : ℕ) → i ≤ j → j < i + n → flash (offset + j) ≡ 0xff)
    → ((j : ℕ) → page_buf j < 256)
    → program_bytes n i offset size page_buf flash errors
      ≡ ((λ x. if within (offset + i) n x then page_buf (x - offset) else flash x), errors)
unfolding program_bytes
program_bytes_lem zero i offset size page_buf flash errors fits erased bytes =
    let e : (x : ℕ)
        → flash x ≡ (if within (offset + i) 0 x then page_buf (x - offset) else flash x) =
      λ x. ground arith in
    λ j. (fun_ext e j, errors)
program_bytes_lem (suc n) i offset size page_buf flash errors fits erased bytes =
    program_bytes-step n i offset size page_buf flash errors (omega arith)
      (erased i (omega arith) (omega arith)) (bytes i)
    ∙ program_bytes_lem n (i + 1) offset size page_buf (put flash (offset + i) (page_buf i)) errors
        (omega arith) (λ j l h. ground (arith, erased j)) bytes
    ∙ (λ j. (fun_ext last j, errors))
  where
    last :
        (x : ℕ)
        → (if within (offset + (i + 1)) n x
            then page_buf (x - offset)
            else put flash (offset + i) (page_buf i) x)
          ≡ (if within (offset + i) (suc n) x then page_buf (x - offset) else flash x)
    last x = elim (Bool-cases (x == offset + i)) [
      | inl e ↦
          let k : x ≡ offset + i = ==→eq x (offset + i) e in
          let p : page_buf i ≡ page_buf (x - offset) = ap page_buf (the_index k) in
          ground (arith, p)
      | inr e ↦ ground arith
    ]
      where
        the_index : x ≡ offset + i → i ≡ x - offset
        the_index k = omega arith
