-- ===== src/Flash/Ch32v0/Page.antt =====
-- One page of the write: what it leaves in the flash (src/flash_ch32v0.c).
use libopenwch_tools.Prelude.{
  ℕ, ◌+◌, ◌-◌, ◌*◌, ◌%◌, ◌^◌, ◌<◌, ◌≤◌, ◌≡◌, refl, ap, ◌∙◌, fun_ext, inl, inr, true, false, ◌&&◌,
  List, arith, ltb, lt→ltb, if◌then◌else◌, get_or, length, Bool-cases,
}
use libopenwch_tools.Status.{ok, go_on, ◌>>◌}
use libopenwch_tools.Sim.{access, flash_offset, erase_bytes, program_bytes}
use libopenwch_tools.Sim.Loops.{within, erase_bytes_lem, program_bytes_lem}
use libopenwch_tools.Sim.Place.{flash_offset_lem}
use libopenwch_tools.Flash.Ch32v0.{
  write_page, merge, erase_page_fast, buffer_reset, load_words, program_page_fast,
}
use libopenwch_tools.Flash.Ch32v0.Steps.{resting, erase_lem, reset_lem, program_lem}
use libopenwch_tools.Flash.Ch32v0.Load.{fill, fill_lem, load_words_lem}
use libopenwch_tools.Flash.Ch32v0.Old.{
  covers, Bytes, IsOld, old_page_lem, merge-Bytes, length-merge, get_or-merge, get_or-Bytes,
}

-- The flash with the page's part of the image in place.
abbrev pub paged : (ℕ → ℕ) → ℕ → List ℕ → ℕ → ℕ → ℕ
paged f start image page x =
    if within (page - 0x0800_0000) 64 x && covers start image (x + 0x0800_0000)
    then get_or image (x + 0x0800_0000 - start) 0
    else f x

module _ (f : ℕ → ℕ) (size : ℕ) (image : List ℕ) (start page : ℕ) (low : 0x0800_0000 ≤ page)
    (high : page + 64 ≤ 0x0800_0000 + size) (window : size ≤ 2 ^ 24) (aligned : page % 64 ≡ 0)
    (bytes : (x : ℕ) → f x < 256) (all : Bytes image) (fits : start + length image < 2 ^ 32) where
  abbrev offset : ℕ
  offset = page - 0x0800_0000

  abbrev merged : List ℕ → List ℕ
  merged old = merge image start (start + length image) old page

  abbrev buffer : List ℕ → ℕ → ℕ
  buffer old = fill (λ i. 0xff) 0 (merged old)

  buffer_lem :
      (old : List ℕ) (j : ℕ)
      → length old ≡ 64
      → buffer old j ≡ (if ltb j 64 then get_or (merged old) j 0 else 0xff)
  buffer_lem old j len =
      fill_lem (merged old) (λ i. 0xff) 0 j
      ∙ (let l : length (merged old) ≡ 64 = length-merge image start fits all old page ∙ len in
          let z : j - 0 ≡ j = omega arith in rw (l, z) (ground arith))

  -- A byte of the page.
  inside_lem :
      (old : List ℕ) (x : ℕ)
      → IsOld f start image page old
      → within offset 64 x ≡ true
      → buffer old (x - offset) ≡ paged f start image page x
  inside_lem old x h w =
      let at : page + (x - offset) ≡ x + 0x0800_0000 = ground arith in
      let j : x - offset < 64 = ground arith in
      let reach : (ltb (x - offset) 64) ≡ true = lt→ltb (x - offset) 64 j in
      let b = buffer_lem old (x - offset) h.0 in
      let m = get_or-merge image start fits all old page (x - offset) (omega arith) (omega arith) in
      let m' : get_or (merged old) (x - offset) 0 ≡ (
          if covers start image (x + 0x0800_0000)
          then get_or image (x + 0x0800_0000 - start) 0
          else get_or old (x - offset) 0) =
        rw at at m in
      let first : buffer old (x - offset) ≡ get_or (merged old) (x - offset) 0 = rw reach at b in
      first ∙ m' ∙ elim (Bool-cases (covers start image (x + 0x0800_0000))) [
        | inl c ↦ rw (c, w) refl
        | inr c ↦
            let out : covers start image (page + (x - offset)) ≡ false = rw at c in
            let back : page + (x - offset) - 0x0800_0000 ≡ x = omega arith in
            rw (c, w) (h.2 (x - offset) j out ∙ ap f back)
      ]

  -- Erased and programmed, the page has the buffer's bytes, and the rest of the flash is as before.
  committed_lem :
      (old : List ℕ)
      → IsOld f start image page old
      → program_bytes 64 0
          (flash_offset page)
          size
          (buffer old)
          (erase_bytes 64 0 (flash_offset page) size f)
          0
        ≡ (paged f start image page, 0)
  committed_lem old h =
      let o : flash_offset page ≡ offset = flash_offset_lem page low (omega arith) in
      let erased : (x : ℕ)
          → erase_bytes 64 0 offset size f x ≡ (if within (offset + 0) 64 x then 0xff else f x) =
        λ x. erase_bytes_lem 64 0 offset size f x (omega arith) in
      let run =
        program_bytes_lem 64 0 offset size (buffer old) (erase_bytes 64 0 offset size f) 0
          (omega arith) (λ j l k. erased (offset + j) ∙ ground arith)
          (λ j.
            let g = get_or-Bytes (merged old) j (merge-Bytes image start fits all old page h.1) in
            let b = buffer_lem old j h.0 in ground (arith, g, b)) in
      rw o (run ∙ (λ i. (fun_ext last i, 0)))
    where
      last :
          (x : ℕ)
          → (if within (offset + 0) 64 x
              then buffer old (x - offset)
              else erase_bytes 64 0 offset size f x)
            ≡ paged f start image page x
      last x =
          let z : offset + 0 ≡ offset = omega arith in
          let e = erase_bytes_lem 64 0 offset size f x (omega arith) in
          rw z (elim (Bool-cases (within offset 64 x)) [
            | inl w ↦ rw w (rw w at (inside_lem old x h w))
            | inr w ↦ rw w (rw (z, w) at e)
          ])

  -- A page is written without an error: the image's bytes are in place in it, and the rest of the
  -- flash is as before.
  pub write_page_lem :
      (page_buf : ℕ → ℕ) (addr erases programs : ℕ)
      → (page_buf' : ℕ → ℕ) × (write_page access 64 image start
            (start + length image)
            page
            (resting f size page_buf addr erases programs)
          ≡ (
            ok tt,
            resting (paged f start image page) size page_buf' page (erases + 1) (programs + 1),
          ))
  unfolding write_page
  write_page_lem page_buf addr erases programs =
      let s = resting f size page_buf addr erases programs in
      let old = old_page_lem s window bytes image start page low high in
      let e : ℕ → ℕ = erase_bytes 64 0 (flash_offset page) size f in
      let m : List ℕ = merged old.0 in
      let zero_at : page ≡ page + 0 = omega arith in
      let len : length m ≡ 4 * 16 = length-merge image start fits all old.0 page ∙ old.2.0 in
      let load =
        ap (λ a. load_words access m a (resting e size (λ i. 0xff) page (erases + 1) programs))
          zero_at
        ∙ load_words_lem e size page (erases + 1) programs page low high window aligned 16 m 0
            (λ i. 0xff) len (omega arith) (omega arith)
            (merge-Bytes image start fits all old.0 page old.2.1) in
      let program =
        program_lem e size (buffer old.0) page (erases + 1) programs page (paged f start image page)
          (committed_lem old.0 old.2) in
      (
        buffer old.0,
        ap
              (go_on (λ o. (do
                erase_page_fast access page
                buffer_reset access
                load_words access (merged o) page
                program_page_fast access page)))
              old.1
            ∙ ap
                (go_on (λ _. (do
                  buffer_reset access
                  load_words access m page
                  program_page_fast access page)))
                (erase_lem f size page_buf addr erases programs page)
            ∙ ap (go_on (λ _. (do load_words access m page; program_page_fast access page)))
                (reset_lem e size page_buf page (erases + 1) programs)
            ∙ ap (go_on (λ _. program_page_fast access page)) load
            ∙ program,
      )
