-- ===== src/Flash/Ch32v0/Steps.antt =====
-- The routines of src/flash_ch32v0.c against the flash controller of the simulated target, from a
-- controller that is unlocked and idle.
use libopenwch_tools.Prelude.{ℕ, ◌+◌, ◌≤◌, ◌≡◌, refl, ap, true, false, arith, bit_and}
use libopenwch_tools.Status.{Result, ok, ⊤, go_on, ◌>>◌}
use libopenwch_tools.Sim.{
  Sim, access, access_write, access_read, ctrl_write, ctrl_read, control, start, program_page,
  commit, is_ctrl, is_flash, flash_offset, erase_bytes, program_bytes, put_bytes, status, store,
}
use libopenwch_tools.Flash.Ch32v0.{
  wait_ready, wait_for, poll, finish_wait, unless_ready, ctlr_update, unlock, erase_page_fast,
  buffer_reset, buffer_load, program_page_fast,
}

-- Unlocked, idle and without an error so far.
abbrev pub resting : (ℕ → ℕ) → ℕ → (ℕ → ℕ) → ℕ → ℕ → ℕ → Sim
resting flash size page_buf addr erases programs = record {
  flash = flash;
  flash_size = size;
  key_stage = 0;
  mode_key_stage = 0;
  unlocked = true;
  mode_unlocked = true;
  ctlr = 0;
  addr = addr;
  page_buf = page_buf;
  busy_reads = 0;
  erases = erases;
  programs = programs;
  program_errors = 0;
}

module _ (flash : ℕ → ℕ) (size : ℕ) (page_buf : ℕ → ℕ) (addr erases programs : ℕ) where
  abbrev now : Sim
  now = resting flash size page_buf addr erases programs

  wait_lem : wait_ready access now ≡ (ok tt, now)
  unfolding wait_ready wait_for poll unless_ready finish_wait access_read ctrl_read is_ctrl status
  wait_lem = refl

  pub erase_lem :
      (page : ℕ)
      → erase_page_fast access page now ≡ (
        ok tt,
        resting
            (erase_bytes 64 0 (flash_offset page) size flash)
            size
            page_buf
            page
            (erases + 1)
            programs,
      )
  unfolding erase_page_fast wait_ready wait_for poll unless_ready finish_wait ctlr_update
      access_read access_write ctrl_read ctrl_write control start is_ctrl status
  erase_lem page = refl

  pub reset_lem :
      buffer_reset access now ≡ (ok tt, resting flash size (λ i. 0xff) addr erases programs)
  unfolding buffer_reset wait_ready wait_for poll unless_ready finish_wait ctlr_update access_read
      access_write ctrl_read ctrl_write control start is_ctrl status
  reset_lem = refl

  -- With the page committed, the rest of `program_page_fast`.
  abbrev after_commit : ℕ → (ℕ → ℕ) × ℕ → Result ⊤ × Sim
  after_commit page q =
      let p = wait_ready access (commit (record now { ctlr = 0x1_0040; addr = page }) q) in
      (p.0, (ctlr_update access 0 0x1_0040 p.1).1)

  pub program_lem :
      (page : ℕ) (flash' : ℕ → ℕ)
      → program_bytes 64 0 (flash_offset page) size page_buf flash 0 ≡ (flash', 0)
      → program_page_fast access page now
        ≡ (ok tt, resting flash' size page_buf page erases (programs + 1))
  unfolding program_page_fast wait_ready wait_for poll unless_ready finish_wait ctlr_update
      access_read access_write ctrl_read ctrl_write control start is_ctrl status program_page commit
  program_lem page flash' done = ap (after_commit page) done

  -- A store while PAGE_PG is set, in the page buffer's reach.
  stored_lem :
      (address word : ℕ)
      → is_ctrl address ≡ false
      → is_flash address ≡ true
      → flash_offset address + 4 ≤ size
      → bit_and (flash_offset address) 0x3f + 4 ≤ 64
      → access_write 2 address word (record now { ctlr = 0x1_0000 }) ≡ (
        ok tt,
        record now {
          ctlr = 0x1_0000;
          page_buf = put_bytes 4 0 page_buf (bit_and (flash_offset address) 0x3f) word;
          busy_reads = 2;
        },
      )
  unfolding access_write store
  stored_lem address word ctrl flash_at fits reach = rw (ctrl, flash_at) (ground arith)

  abbrev after_store : Result ⊤ × Sim → Result ⊤ × Sim
  after_store q =
      let p = go_on (λ _. (do ctlr_update access 0x4_0000 0; wait_ready access)) q in
      (p.0, (ctlr_update access 0 0x5_0000 p.1).1)

  pub load_lem :
      (address word : ℕ)
      → is_ctrl address ≡ false
      → is_flash address ≡ true
      → flash_offset address + 4 ≤ size
      → bit_and (flash_offset address) 0x3f + 4 ≤ 64
      → buffer_load access address word now ≡ (
        ok tt,
        resting flash size
            (put_bytes 4 0 page_buf (bit_and (flash_offset address) 0x3f) word)
            addr
            erases
            programs,
      )
  unfolding buffer_load wait_ready wait_for poll unless_ready finish_wait ctlr_update access_read
      access_write ctrl_read ctrl_write control start is_ctrl status
  load_lem address word ctrl flash_at fits reach =
      ap after_store (stored_lem address word ctrl flash_at fits reach)

-- The two pairs of keys unlock the controller, whatever it has seen of them before.
pub unlock_lem :
    (s : Sim)
    → s.ctlr ≡ 0
    → s.busy_reads ≡ 0
    → s.program_errors ≡ 0
    → unlock access s ≡ (ok tt, resting s.flash s.flash_size s.page_buf s.addr s.erases s.programs)
unfolding unlock access_read access_write ctrl_read ctrl_write control start is_ctrl status
unlock_lem s ctlr_zero idle no_errors =
    let e : s ≡ record s { ctlr = 0; busy_reads = 0; program_errors = 0 } =
      λ i. record s { ctlr = ctlr_zero i; busy_reads = idle i; program_errors = no_errors i } in
    ap (unlock access) e
