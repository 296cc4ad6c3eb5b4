-- ===== src/Flash/Ch32v0/Whole.antt =====
-- The whole write: the loop over the pages (src/flash_ch32v0.c).
use libopenwch_tools.Prelude.{
  ℕ, zero, suc, ◌+◌, ◌-◌, ◌*◌, ◌/◌, ◌%◌, ◌^◌, ◌<◌, ◌≤◌, ◌≡◌, refl, sym, ap, ◌∙◌, fun_ext, ◌⊎◌, inl,
  inr, Bool, true, false, ◌&&◌, List, arith, ltb, leb, if◌then◌else◌, get_or, length, All,
  Bool-cases, u32, sub32, bit_and, bit_not32, ltb→lt,
}
use libopenwch_tools.Prelude.Bits.{bit_and_high}
use libopenwch_tools.Status.{Result, Action, usage, fail, ok, go_on, ⊤, pure, ◌>>◌}
use libopenwch_tools.Target.{Chip}
use libopenwch_tools.Sim.{Sim, access}
use libopenwch_tools.Sim.Loops.{within}
use libopenwch_tools.Flash.Ch32v0.{write_page, write_pages, ch32v0_write, unlock, bad_page_size}
use libopenwch_tools.Flash.Ch32v0.Steps.{resting, unlock_lem}
use libopenwch_tools.Flash.Ch32v0.Old.{covers, Bytes, get_or-Bytes}
use libopenwch_tools.Flash.Ch32v0.Page.{paged, write_page_lem}

-- The flash with the image in place below the address `upto`.
abbrev pub written : (ℕ → ℕ) → ℕ → List ℕ → ℕ → ℕ → ℕ
written f start image upto x =
    if covers start image (x + 0x0800_0000) && ltb (x + 0x0800_0000) upto
    then get_or image (x + 0x0800_0000 - start) 0
    else f x

module _ (f : ℕ → ℕ) (size : ℕ) (image : List ℕ) (start : ℕ) (low : 0x0800_0000 ≤ start)
    (high : start + length image ≤ 0x0800_0000 + size) (window : size ≤ 2 ^ 24)
    (pages : size % 64 ≡ 0) (bytes : (x : ℕ) → f x < 256) (all : Bytes image) where
  written-bytes : (upto x : ℕ) → written f start image upto x < 256
  written-bytes upto x =
      let b = bytes x in let g = get_or-Bytes image (x + 0x0800_0000 - start) all in ground arith

  -- A page more of the image.
  written-paged :
      (page : ℕ)
      → 0x0800_0000 ≤ page
      → paged (written f start image page) start image page ≡ written f start image (page + 64)
  written-paged page l = fun_ext (λ x.
      at x (Bool-cases (covers start image (x + 0x0800_0000)))
        (Bool-cases (within (page - 0x0800_0000) 64 x)))
    where
      at :
          (x : ℕ)
          → (covers start image (x + 0x0800_0000) ≡ true)
            ⊎ (covers start image (x + 0x0800_0000) ≡ false)
          → (within (page - 0x0800_0000) 64 x ≡ true) ⊎ (within (page - 0x0800_0000) 64 x ≡ false)
          → paged (written f start image page) start image page x
            ≡ written f start image (page + 64) x
      at x (inl c) (inl w) =
          let h : ltb (x + 0x0800_0000) (page + 64) ≡ true = ground arith in rw (w, c, h) refl
      at x (inl c) (inr w) =
          let h : ltb (x + 0x0800_0000) (page + 64) ≡ ltb (x + 0x0800_0000) page = ground arith in
          rw (w, c, h) refl
      at x (inr c) (inl w) = rw (w, c) refl
      at x (inr c) (inr w) = rw (w, c) refl

  abbrev turn : ℕ → ℕ → Bool → Sim → Result ⊤ × Sim
  turn rounds page more = elim more [
    | true ↦ (do
      write_page access 64 image start (start + length image) page
      write_pages access rounds 64 image start (start + length image) (u32 (page + 64)))
    | false ↦ pure tt
  ]

  written-end :
      (page x : ℕ)
      → start + length image ≤ page
      → written f start image page x ≡ written f start image (start + length image) x
  written-end page x h = elim (Bool-cases (covers start image (x + 0x0800_0000))) [
    | inl c ↦
        let e1 : ltb (x + 0x0800_0000) page ≡ true = ground arith in
        let e2 : ltb (x + 0x0800_0000) (start + length image) ≡ true = ground arith in
        rw (c, e1, e2) refl
    | inr c ↦ rw c refl
  ]

  -- The loop from any page on, with the image in place below it.
  write_pages_lem :
      (rounds page : ℕ) (page_buf : ℕ → ℕ) (addr erases programs : ℕ)
      → 0x0800_0000 ≤ page
      → page % 64 ≡ 0
      → page < start + length image + 64
      → start + length image + 64 ≤ page + 64 * rounds
      → (s' : Sim) × (write_pages access rounds 64 image start
            (start + length image)
            page
            (resting (written f start image page) size page_buf addr erases programs)
          ≡ (ok tt, s'))
        × (s'.flash ≡ written f start image (start + length image))
        × (s'.program_errors ≡ 0)
        × (s'.flash_size ≡ size)
        × (s'.ctlr ≡ 0)
        × (s'.busy_reads ≡ 0)
  unfolding write_pages
  write_pages_lem zero page page_buf addr erases programs l a near h = absurd (omega arith)
  write_pages_lem (suc rounds) page page_buf addr erases programs l a near h =
      elim (Bool-cases (ltb page (start + length image))) [
        | inl more ↦
            let r =
              write_page_lem (written f start image page) size image start page l
                (omega (arith, ltb→lt page (start + length image) more)) window a
                (written-bytes page) all (omega arith) page_buf addr erases programs in
            let e : u32 (page + 64) ≡ page + 64 =
              omega (arith, ltb→lt page (start + length image) more) in
            let q =
              write_pages_lem rounds (page + 64) r.0 page (erases + 1) (programs + 1) (omega arith)
                (omega arith) (omega (arith, ltb→lt page (start + length image) more))
                (omega arith) in
            (
              q.0,
              ap
                    (λ b.
                      turn rounds page b
                        (resting (written f start image page) size page_buf addr erases programs))
                    more
                  ∙ (ap
                        (go_on (λ _.
                          write_pages access rounds 64 image start (start + length image)
                            (u32 (page + 64))))
                        r.1
                      ∙ (λ i.
                          write_pages access rounds 64 image start (start + length image) (e i) (
                            resting (written-paged page l i) size r.0 page (erases + 1)
                              (programs + 1)))
                      ∙ q.1),
              q.2,
              q.3,
              q.4,
              q.5,
              q.6,
            )
        | inr done ↦ (
          resting (written f start image page) size page_buf addr erases programs,
          ap
              (λ b.
                turn rounds page b
                  (resting (written f start image page) size page_buf addr erases programs))
              done,
          fun_ext (λ x. written-end page x (ground arith)),
          refl,
          refl,
          refl,
          refl,
        )
      ]

  written-start : (page x : ℕ) → page ≤ start → written f start image page x ≡ f x
  written-start page x h = ground arith

-- `ch32v0_write` from its page size, end and first page.
abbrev write_from : ℕ → List ℕ → ℕ → ℕ → ℕ → Action Sim ⊤
write_from address image page_size end first =
    if bad_page_size page_size
    then fail usage
    else (do unlock access; write_pages access (length image + 2) page_size image address end first)

-- `wl_flash_ch32v0_write` on a part with pages of 64 bytes, against the flash controller of the
-- simulated target: from an idle controller, locked or not, with any contents of the flash and for any
-- image that fits, it ends with `ok`; then the flash holds the image from `address` on and what it
-- held before everywhere else, also in the pages that the image covers in part, and the controller
-- has seen no write to a byte that was not erased and no other error, and is idle again.
pub ch32v0_write-image :
    (c : Chip) (s : Sim) (address : ℕ) (image : List ℕ)
    → c.erase_size ≡ 64
    → s.ctlr ≡ 0
    → s.busy_reads ≡ 0
    → s.program_errors ≡ 0
    → ((x : ℕ) → s.flash x < 256)
    → s.flash_size ≤ 2 ^ 24
    → s.flash_size % 64 ≡ 0
    → All (λ b. b < 256) image
    → 0x0800_0000 ≤ address
    → address + length image ≤ 0x0800_0000 + s.flash_size
    → (s' : Sim) × (ch32v0_write access c address image s ≡ (ok tt, s'))
      × ((x : ℕ)
          → s'.flash x ≡ (
              if leb address (x + 0x0800_0000) && ltb (x + 0x0800_0000) (address + length image)
              then get_or image (x + 0x0800_0000 - address) 0
              else s.flash x))
      × (s'.program_errors ≡ 0)
      × (s'.flash_size ≡ s.flash_size)
      × (s'.ctlr ≡ 0)
      × (s'.busy_reads ≡ 0)
unfolding ch32v0_write bad_page_size
ch32v0_write-image c s address image erase ctlr_zero idle no_errors bytes window pages all low
      high =
    let n = length image in
    let first : ℕ = address / 64 * 64 in
    let e1 : bit_and address 0xffff_ffc0 ≡ first =
      bit_and_high 6 32 address (omega arith) (omega arith) in
    let e2 : u32 (address + u32 n) ≡ address + n = omega arith in
    let e3 : s.flash ≡ written s.flash address image first = fun_ext (λ x. sym (
      written-start s.flash s.flash_size image address low high window pages bytes all first x
        (omega arith))) in
    let r =
      write_pages_lem s.flash s.flash_size image address low high window pages bytes all (n + 2)
        first s.page_buf s.addr s.erases s.programs (omega arith) (omega arith) (omega arith)
        (omega arith) in
    (
      r.0,
      ap
            (λ k.
              write_from address image k (u32 (address + u32 n))
                (bit_and address (bit_not32 (sub32 k 1))) s)
            erase
          ∙ (λ i. write_from address image 64 (e2 i) (e1 i) s)
          ∙ ap (go_on (λ _. write_pages access (n + 2) 64 image address (address + n) first))
              (unlock_lem s ctlr_zero idle no_errors)
          ∙ (λ i.
              write_pages access (n + 2) 64 image address (address + n) first
                (resting (e3 i) s.flash_size s.page_buf s.addr s.erases s.programs))
          ∙ r.1,
      λ x. ap (λ (g : ℕ → ℕ). g x) r.2 ∙ inside x,
      r.3,
      r.4,
      r.5,
      r.6,
    )
  where
    inside :
        (x : ℕ)
        → written s.flash address image (address + length image) x ≡ (
            if leb address (x + 0x0800_0000) && ltb (x + 0x0800_0000) (address + length image)
            then get_or image (x + 0x0800_0000 - address) 0
            else s.flash x)
    inside x = ground arith
