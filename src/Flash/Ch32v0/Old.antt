-- ===== src/Flash/Ch32v0/Old.antt =====
-- What a page is made of before it is written: the bytes it held, and the image's put in.
use libopenwch_tools.Prelude.{
  ℕ, zero, suc, ◌+◌, ◌-◌, ◌^◌, ◌<◌, ◌≤◌, ◌≡◌, refl, ap, ◌∙◌, inl, inr, Bool, false, ◌&&◌, List, [],
  ◌∷◌, arith, ltb, leb, if◌then◌else◌, u32, sub32, get_or, length, replicate, All, Bool-cases,
}
use libopenwch_tools.Status.{ok}
use libopenwch_tools.Dm.Memory.Block.{
  bytes_from, length-bytes_from, get_or-bytes_from, read_block_by-Reads,
}
use libopenwch_tools.Sim.{Sim, access}
use libopenwch_tools.Sim.Read.{held, access_read-IsReadable}
use libopenwch_tools.Flash.Ch32v0.{merge, old_page}

-- The image, from `start` on, covers the address.
abbrev pub covers : ℕ → List ℕ → ℕ → Bool
covers start image a = leb start a && ltb a (start + length image)

abbrev pub Bytes : List ℕ → Type 0
Bytes = All (λ b. b < 256)

pub get_or-Bytes : (bytes : List ℕ) (i : ℕ) → Bytes bytes → get_or bytes i 0 < 256
get_or-Bytes [] i all = omega arith
get_or-Bytes (b ∷ bytes) zero all = all.0
get_or-Bytes (b ∷ bytes) (suc i) all = get_or-Bytes bytes i all.1

module _ (image : List ℕ) (start : ℕ) (fits : start + length image < 2 ^ 32)
    (all : Bytes image) where
  pub merge-Bytes :
      (old : List ℕ) (at : ℕ) → Bytes old → Bytes (merge image start (start + length image) old at)
  unfolding merge
  merge-Bytes [] at h = tt
  merge-Bytes (b ∷ old) at h =
      let g = get_or-Bytes image (sub32 at start) all in
      (ground arith, merge-Bytes old (u32 (at + 1)) h.1)

  pub length-merge :
      (old : List ℕ) (at : ℕ)
      → length (merge image start (start + length image) old at) ≡ length old
  unfolding merge
  length-merge [] at = refl
  length-merge (b ∷ old) at = ap suc (length-merge old (u32 (at + 1)))

  pub get_or-merge :
      (old : List ℕ) (at i : ℕ)
      → at + length old < 2 ^ 32
      → i < length old
      → get_or (merge image start (start + length image) old at) i 0
        ≡ (if covers start image (at + i) then get_or image (at + i - start) 0 else get_or old i 0)
  unfolding merge
  get_or-merge [] at i h l = absurd (omega arith)
  get_or-merge (b ∷ old) at zero h l =
      let e : at + 0 ≡ at = omega arith in
      rw e (elim (Bool-cases (covers start image at)) [
        | inl c ↦ let f : sub32 at start ≡ at - start = ground arith in rw (c, f) refl
        | inr c ↦ rw c refl
      ])
  get_or-merge (b ∷ old) at (suc i) h l =
      let e : u32 (at + 1) ≡ at + 1 = omega arith in
      let f : at + 1 + i ≡ at + suc i = omega arith in
      rw e (rw f at (get_or-merge old (at + 1) i (omega arith) (omega arith)))

-- The page's bytes where the image does not cover them.
abbrev pub IsOld : (ℕ → ℕ) → ℕ → List ℕ → ℕ → List ℕ → Type 0
IsOld f start image page old =
    (length old ≡ 64)
    × Bytes old
    × ((i : ℕ)
        → i < 64
        → covers start image (page + i) ≡ false
        → get_or old i 0 ≡ held f (page + i))

bytes_from-Bytes : (f : ℕ → ℕ) (a n : ℕ) → ((x : ℕ) → f x < 256) → Bytes (bytes_from f a n)
bytes_from-Bytes f a zero h = tt
bytes_from-Bytes f a (suc n) h = (h a, bytes_from-Bytes f (a + 1) n h)

ones : (n : ℕ) → Bytes (replicate n 0xff)
ones zero = tt
ones (suc n) = (omega arith, ones n)

module _ (s : Sim) (window : s.flash_size ≤ 2 ^ 24) (bytes : (x : ℕ) → s.flash x < 256)
    (image : List ℕ) (start page : ℕ) (low : 0x0800_0000 ≤ page)
    (high : page + 64 ≤ 0x0800_0000 + s.flash_size) where
  pub old_page_lem :
      (old : List ℕ) × (old_page access 64 start (start + length image) page s ≡ (ok old, s))
      × IsOld s.flash start image page old
  unfolding old_page
  old_page_lem =
      elim (Bool-cases (leb start page && leb (u32 (page + 64)) (start + length image))) [
        | inl whole ↦ (
          replicate 64 0xff,
          rw whole refl,
          (
            refl,
            ones 64,
            λ i l out. absurd (let e : u32 (page + 64) ≡ page + 64 = omega arith in ground arith),
          ),
        )
        | inr partly ↦
            let r =
              read_block_by-Reads (access_read-IsReadable s window bytes) 64 page s refl low high in
            (
              bytes_from (held s.flash) page 64,
              rw partly (r.1 ∙ ap (λ (t : Sim). (ok (bytes_from (held s.flash) page 64), t)) r.2),
              (
                length-bytes_from (held s.flash) page 64,
                bytes_from-Bytes (held s.flash) page 64 (λ x. bytes (x - 0x0800_0000)),
                λ i l out. get_or-bytes_from (held s.flash) page 64 i l,
              ),
            )
      ]
