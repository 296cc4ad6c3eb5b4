-- ===== src/Flash/Ch32v0.antt =====
-- The CH32V00x flash controller, driven over the debug interface (src/flash_ch32v0.c).
pub mod Whole
pub mod Old
pub mod Page
pub mod Load
pub mod Steps
pub mod Alike
use libopenwch_tools.Prelude.{
  ℕ, zero, suc, ◌+◌, Bool, true, false, ◌&&◌, ◌||◌, not, List, [], ◌∷◌, ◌==◌, ltb, leb,
  if◌then◌else◌, bit_and, bit_or, bit_not32, sub32, u32, ◌<<<◌, get_or, length, replicate,
}
use libopenwch_tools.Status.{Action, usage, target, io, ⊤, pure, fail, finally, ◌>>=◌, ◌>>◌}
use libopenwch_tools.Target.{Chip}
use libopenwch_tools.Flash.Access.{Access}

abbrev pub keyr : ℕ
keyr = 0x4002_2004

abbrev pub statr : ℕ
statr = 0x4002_200c

abbrev pub ctlr : ℕ
ctlr = 0x4002_2010

abbrev pub addr : ℕ
addr = 0x4002_2014

abbrev pub modekeyr : ℕ
modekeyr = 0x4002_2024

abbrev pub key1 : ℕ
key1 = 0x4567_0123

abbrev pub key2 : ℕ
key2 = 0xcdef_89ab

abbrev pub ctlr_strt : ℕ
ctlr_strt = 0x40

abbrev pub ctlr_lock : ℕ
ctlr_lock = 0x80

abbrev pub ctlr_page_pg : ℕ
ctlr_page_pg = 0x1_0000

abbrev pub ctlr_page_er : ℕ
ctlr_page_er = 0x2_0000

abbrev pub ctlr_buf_load : ℕ
ctlr_buf_load = 0x4_0000

abbrev pub ctlr_buf_rst : ℕ
ctlr_buf_rst = 0x8_0000

abbrev pub statr_bsy : ℕ
statr_bsy = 0x1

abbrev pub statr_wrprterr : ℕ
statr_wrprterr = 0x10

abbrev pub poll_limit : ℕ
poll_limit = 200_000

abbrev pub merge_max : ℕ
merge_max = 256

-- Four bytes as a word, the lowest first.
unfoldable pub join_word : ℕ → ℕ → ℕ → ℕ → ℕ
join_word a b c d = bit_or (bit_or (bit_or a (b <<< 8)) (c <<< 16)) (d <<< 24)

-- The page's bytes, those of the image put in where the image covers them; `at` is the address of
-- the first byte.
unfoldable pub merge : List ℕ → ℕ → ℕ → List ℕ → ℕ → List ℕ
merge image start end [] at = []
merge image start end (old ∷ page) at =
    (if leb start at && ltb at end then get_or image (sub32 at start) 0 else old)
    ∷ merge image start end page (u32 (at + 1))

-- The test of `page_size` at the head of `wl_flash_ch32v0_write`.
unfoldable pub bad_page_size : ℕ → Bool
bad_page_size page_size =
    (page_size == 0)
    || not (bit_and page_size (sub32 page_size 1) == 0)
    || not (bit_and page_size 3 == 0)
    || ltb merge_max page_size

module _ {S : Type 0} (A : Access S) where
  -- The end of a round: out of the loop, or on to the next.
  unfoldable pub unless_ready : (ℕ → Action S ℕ) → ℕ → Action S ℕ
  unless_ready next status = elim (bit_and status statr_bsy == 0) [
    | true ↦ pure status
    | false ↦ next status
  ]

  -- The loop of `wait_ready`, with the polls that are left and the last status read.
  unfoldable pub poll : ℕ → ℕ → Action S ℕ
  unfolding unless_ready
  poll zero last = pure last
  poll (suc polls) last = do status ← A.read32 statr; unless_ready (poll polls) status

  -- What `wait_ready` makes of the last status read.
  unfoldable pub finish_wait : ℕ → Action S ⊤
  finish_wait status =
      if not (bit_and status statr_bsy == 0)
      then fail target
      else if not (bit_and status statr_wrprterr == 0)
      then fail target
      else pure tt

  -- `wait_ready`, with the bound on the polls as an argument.
  unfoldable pub wait_for : ℕ → Action S ⊤
  unfolding finish_wait
  wait_for polls = do status ← poll polls 0; finish_wait status

  unfoldable pub wait_ready : Action S ⊤
  wait_ready = wait_for poll_limit

  -- `ctlr_update`
  unfoldable pub ctlr_update : ℕ → ℕ → Action S ⊤
  ctlr_update set clear = do
    value ← A.read32 ctlr
    A.write32 ctlr (bit_and (bit_or value set) (bit_not32 clear))

  -- `unlock`
  unfoldable pub unlock : Action S ⊤
  unlock = do
    A.write32 keyr key1
    A.write32 keyr key2
    A.write32 modekeyr key1
    A.write32 modekeyr key2
    value ← A.read32 ctlr
    if not (bit_and value ctlr_lock == 0) then fail target else pure tt

  -- `erase_page_fast`
  unfoldable pub erase_page_fast : ℕ → Action S ⊤
  erase_page_fast page =
      finally
        (do
          wait_ready
          ctlr_update ctlr_page_er 0
          A.write32 addr page
          ctlr_update ctlr_strt 0
          wait_ready)
        (ctlr_update 0 (bit_or ctlr_page_er ctlr_strt))

  -- `buffer_reset`
  unfoldable pub buffer_reset : Action S ⊤
  buffer_reset =
      finally (do ctlr_update ctlr_page_pg 0; ctlr_update ctlr_buf_rst 0; wait_ready)
        (ctlr_update 0 (bit_or ctlr_page_pg ctlr_buf_rst))

  -- `buffer_load`
  unfoldable pub buffer_load : ℕ → ℕ → Action S ⊤
  buffer_load address word =
      finally
        (do
          ctlr_update ctlr_page_pg 0
          A.write32 address word
          ctlr_update ctlr_buf_load 0
          wait_ready)
        (ctlr_update 0 (bit_or ctlr_page_pg ctlr_buf_load))

  -- `program_page_fast`
  unfoldable pub program_page_fast : ℕ → Action S ⊤
  program_page_fast page =
      finally
        (do ctlr_update ctlr_page_pg 0; A.write32 addr page; ctlr_update ctlr_strt 0; wait_ready)
        (ctlr_update 0 (bit_or ctlr_page_pg ctlr_strt))

  -- The loop over the words of a page; the page size is a multiple of 4.
  unfoldable pub load_words : List ℕ → ℕ → Action S ⊤
  unfolding join_word
  load_words (a ∷ b ∷ c ∷ d ∷ bytes) address = do
    buffer_load address (join_word a b c d)
    load_words bytes (u32 (address + 4))
  load_words bytes address = pure tt

  -- The bytes that a page starts from: all ones where the image covers it, else what it holds.
  unfoldable pub old_page : ℕ → ℕ → ℕ → ℕ → Action S (List ℕ)
  old_page page_size start end page =
      if leb start page && leb (u32 (page + page_size)) end
      then pure (replicate page_size 0xff)
      else A.read_block page page_size

  -- One round of the loop over the pages.
  unfoldable pub write_page : ℕ → List ℕ → ℕ → ℕ → ℕ → Action S ⊤
  unfolding merge old_page load_words
  write_page page_size image start end page = do
    old ← old_page page_size start end page
    erase_page_fast page
    buffer_reset
    load_words (merge image start end old page) page
    program_page_fast page

  -- The loop over the pages, with a bound on the rounds; `fail io` says that it ran out.
  unfoldable pub write_pages : ℕ → ℕ → List ℕ → ℕ → ℕ → ℕ → Action S ⊤
  write_pages zero page_size image start end page = fail io
  write_pages (suc rounds) page_size image start end page = elim (ltb page end) [
    | true ↦ (do
      write_page page_size image start end page
      write_pages rounds page_size image start end (u32 (page + page_size)))
    | false ↦ pure tt
  ]

  -- `wl_flash_ch32v0_write`; a round for each byte of the image, and two, are enough.
  unfoldable pub ch32v0_write : Chip → ℕ → List ℕ → Action S ⊤
  unfolding bad_page_size
  ch32v0_write c address image =
      let end = u32 (address + u32 (length image)) in
      let first = bit_and address (bit_not32 (sub32 c.erase_size 1)) in
      if bad_page_size c.erase_size
      then fail usage
      else (do unlock; write_pages (length image + 2) c.erase_size image address end first)
