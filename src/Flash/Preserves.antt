-- ===== src/Flash/Preserves.antt =====
-- The flash algorithms and the verification keep what the accesses to memory keep
-- (src/flash_ch32v0.c, src/flash.c).
use libopenwch_tools.Prelude.{
  ℕ, zero, suc, List, [], ◌∷◌, Bool-cases, inl, inr, ◌==◌, bit_and, ltb, u32, ◌+◌, drop, length,
  if◌then◌else◌, true, false, not,
}
use libopenwch_tools.Status.{Action, Result, ⊤, fail, usage, not_implemented, verify}
use libopenwch_tools.Status.Preserves.{
  Preserves, preserves, if-Preserves, bind-Preserves, fail-Preserves,
}
use libopenwch_tools.Target.{Chip, unsupported, ch32v0}
use libopenwch_tools.Dm.Command.{Dmi}
use libopenwch_tools.Dm.Preserves.{
  IsKept, read32-Preserves, write32-Preserves, read_block-Preserves,
}
use libopenwch_tools.Flash.Access.{Access, of_dmi}
use libopenwch_tools.Flash.Ch32v0.{
  unless_ready, poll, finish_wait, wait_for, wait_ready, ctlr_update, unlock, erase_page_fast,
  buffer_reset, buffer_load, program_page_fast, load_words, old_page, write_page, write_pages,
  ch32v0_write, statr_bsy, poll_limit,
}
use libopenwch_tools.Flash.Range.{range_ok, normalise}
use libopenwch_tools.Flash.Image.{flash_write, verify_from, flash_verify, same_bytes, chunk_max}

-- Each access keeps `P`.
pub record IsKeeping {S : Type 0} (P : S → Type 0) (A : Access S) : Type 0 where
  pub reads : (a : ℕ) → Preserves P (A.read32 a)
  pub writes : (a v : ℕ) → Preserves P (A.write32 a v)
  pub blocks : (a n : ℕ) → Preserves P (A.read_block a n)

pub of_dmi-IsKeeping :
    {S : Type 0} {P : S → Type 0} {D : Dmi S} → IsKept P D → IsKeeping P (of_dmi D)
of_dmi-IsKeeping kept = record {
  reads = read32-Preserves kept;
  writes = write32-Preserves kept;
  blocks = read_block-Preserves kept;
}

module _ {S : Type 0} {P : S → Type 0} {A : Access S} (kept : IsKeeping P A) where
  unless_ready-Preserves :
      (next : ℕ → Action S ℕ) (status : ℕ)
      → ((n : ℕ) → Preserves P (next n))
      → Preserves P (unless_ready A next status)
  unfolding unless_ready
  unless_ready-Preserves next status k = elim (Bool-cases (bit_and status statr_bsy == 0)) [
    | inl e ↦ rw (unless_ready, e) (search (preserves))
    | inr e ↦ rw (unless_ready, e) (k status)
  ]

  poll-Preserves : (polls last : ℕ) → Preserves P (poll A polls last)
  unfolding poll
  poll-Preserves zero last = search (preserves)
  poll-Preserves (suc polls) last =
      search (preserves, kept.reads, unless_ready-Preserves, poll-Preserves polls)

  finish_wait-Preserves : (status : ℕ) → Preserves P (finish_wait A status)
  unfolding finish_wait
  finish_wait-Preserves status = search (preserves)

  wait_ready-Preserves : Preserves P (wait_ready A)
  unfolding wait_ready wait_for
  wait_ready-Preserves = search (preserves, poll-Preserves poll_limit, finish_wait-Preserves)

  ctlr_update-Preserves : (set clear : ℕ) → Preserves P (ctlr_update A set clear)
  unfolding ctlr_update
  ctlr_update-Preserves set clear = search (preserves, kept.reads, kept.writes)

  unlock-Preserves : Preserves P (unlock A)
  unfolding unlock
  unlock-Preserves = search (preserves, kept.reads, kept.writes) depth 9

  erase_page_fast-Preserves : (page : ℕ) → Preserves P (erase_page_fast A page)
  unfolding erase_page_fast
  erase_page_fast-Preserves page =
      search (preserves, kept.writes, ctlr_update-Preserves, wait_ready-Preserves) depth 9

  buffer_reset-Preserves : Preserves P (buffer_reset A)
  unfolding buffer_reset
  buffer_reset-Preserves = search (preserves, ctlr_update-Preserves, wait_ready-Preserves) depth 9

  buffer_load-Preserves : (address word : ℕ) → Preserves P (buffer_load A address word)
  unfolding buffer_load
  buffer_load-Preserves address word =
      search (preserves, kept.writes, ctlr_update-Preserves, wait_ready-Preserves) depth 9

  program_page_fast-Preserves : (page : ℕ) → Preserves P (program_page_fast A page)
  unfolding program_page_fast
  program_page_fast-Preserves page =
      search (preserves, kept.writes, ctlr_update-Preserves, wait_ready-Preserves) depth 9

  load_words-Preserves : (bytes : List ℕ) (address : ℕ) → Preserves P (load_words A bytes address)
  unfolding load_words
  load_words-Preserves [] address = search (preserves)
  load_words-Preserves (a ∷ []) address = search (preserves)
  load_words-Preserves (a ∷ b ∷ []) address = search (preserves)
  load_words-Preserves (a ∷ b ∷ c ∷ []) address = search (preserves)
  load_words-Preserves (a ∷ b ∷ c ∷ d ∷ bytes) address =
      search (preserves, buffer_load-Preserves, load_words-Preserves bytes)

  old_page-Preserves :
      (page_size start end page : ℕ) → Preserves P (old_page A page_size start end page)
  unfolding old_page
  old_page-Preserves page_size start end page = search (preserves, kept.blocks)

  write_page-Preserves :
      (page_size : ℕ) (image : List ℕ) (start end page : ℕ)
      → Preserves P (write_page A page_size image start end page)
  unfolding write_page
  write_page-Preserves page_size image start end page =
      search
        (
          preserves, old_page-Preserves, erase_page_fast-Preserves, buffer_reset-Preserves,
          load_words-Preserves, program_page_fast-Preserves,
        )
        depth 9

  write_pages-Preserves :
      (rounds page_size : ℕ) (image : List ℕ) (start end page : ℕ)
      → Preserves P (write_pages A rounds page_size image start end page)
  unfolding write_pages
  write_pages-Preserves zero page_size image start end page = search (preserves)
  write_pages-Preserves (suc rounds) page_size image start end page =
      let rest = write_pages-Preserves rounds page_size image start end (u32 (page + page_size)) in
      let first = write_page-Preserves page_size image start end page in
      elim (Bool-cases (ltb page end)) [
        | inl e ↦ rw (write_pages, e) (search (preserves, first, rest))
        | inr e ↦ rw (write_pages, e) (search (preserves))
      ]

  ch32v0_write-Preserves :
      (c : Chip) (address : ℕ) (image : List ℕ) → Preserves P (ch32v0_write A c address image)
  unfolding ch32v0_write
  ch32v0_write-Preserves c address image =
      search (preserves, unlock-Preserves, write_pages-Preserves)

  -- The algorithm by its name.
  pub flash_write-Preserves :
      (c : Chip) (address : ℕ) (image : List ℕ) → Preserves P (flash_write A c address image)
  unfolding flash_write
  flash_write-Preserves c address image =
      if-Preserves (length image == 0) (fail-Preserves usage)
        (elim c.algo
          as (λ algo. Preserves P {A = Result ⊤} (elim algo [
            | unsupported ↦ fail not_implemented
            | ch32v0 ↦
                if not (range_ok c address (length image))
                then fail usage
                else ch32v0_write A c (normalise c address) image
          ])) [
            | unsupported ↦ fail-Preserves not_implemented
            | ch32v0 ↦ search (preserves, ch32v0_write-Preserves)
          ])

module _ {S : Type 0} {P : S → Type 0} {read_memory : ℕ → ℕ → Action S (List ℕ)}
    (kept : (a n : ℕ) → Preserves P (read_memory a n)) where
  verify_from-Preserves :
      (rounds address : ℕ) (expected : List ℕ)
      → Preserves P (verify_from read_memory rounds address expected)
  unfolding verify_from
  verify_from-Preserves zero address expected = search (preserves)
  verify_from-Preserves (suc rounds) address [] = search (preserves)
  verify_from-Preserves (suc rounds) address (e ∷ expected) =
      let chunk : ℕ =
        if ltb chunk_max (length (e ∷ expected)) then chunk_max else length (e ∷ expected) in
      let rest = verify_from-Preserves rounds (u32 (address + chunk)) (drop chunk (e ∷ expected)) in
      bind-Preserves (kept address chunk) (λ buffer.
        elim (same_bytes buffer (e ∷ expected))
          as (λ b. Preserves P {A = Result ⊤} (elim b [
            | true ↦
                verify_from read_memory rounds (u32 (address + chunk)) (drop chunk (e ∷ expected))
            | false ↦ fail verify
          ])) [ true ↦ rest | false ↦ fail-Preserves verify ])

  pub flash_verify-Preserves :
      (c : Chip) (address : ℕ) (image : List ℕ)
      → Preserves P (flash_verify read_memory c address image)
  unfolding flash_verify
  flash_verify-Preserves c address image = search (verify_from-Preserves)
