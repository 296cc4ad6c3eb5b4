-- ===== src/Sim.antt =====
-- The flash of the simulated target that the tests run against (tests/sim_programmer.c): its
-- controller and its memory, as a core's accesses reach them. Core has the rest of its memory, its
-- registers and its debug module, Packets what answers the programmer's requests.
use libopenwch_tools.Prelude.{
  ℕ, zero, suc, ◌+◌, ◌*◌, ◌/◌, ◌%◌, ◌^◌, ◌-◌, Bool, true, false, ◌&&◌, ◌||◌, not, List, ◌==◌, ltb,
  leb, if◌then◌else◌, bit_and, bit_or, bit_not32, u8, u32, ◌<<<◌, ◌>>>◌,
}
use libopenwch_tools.Status.{Action, ok, ⊤}
use libopenwch_tools.Flash.Access.{Access}
use libopenwch_tools.Dm.Memory.{read_block_by}
pub mod Loops
pub mod Place
pub mod Read
pub mod Core
pub mod Packets
pub mod Registers
pub mod Requests
pub mod Programming
pub mod Patching
pub mod Breakpoints
mod Tests

-- The part of `struct wl_sim` that the flash needs; an array is a function of the index.
pub record Sim : Type 0 where
  pub flash : ℕ → ℕ
  pub flash_size : ℕ
  pub key_stage : ℕ
  pub mode_key_stage : ℕ
  pub unlocked : Bool
  pub mode_unlocked : Bool
  pub ctlr : ℕ
  pub addr : ℕ
  pub page_buf : ℕ → ℕ
  pub busy_reads : ℕ
  pub erases : ℕ
  pub programs : ℕ
  pub program_errors : ℕ

abbrev pub busy_reads_max : ℕ
busy_reads_max = 2

-- A write of one byte of an array.
abbrev pub put : (ℕ → ℕ) → ℕ → ℕ → ℕ → ℕ
put f a v x = if x == a then v else f x

-- `sim_is_flash`
unfoldable pub is_flash : ℕ → Bool
is_flash address =
    (bit_and address 0xff00_0000 == 0x0800_0000) || (bit_and address 0xff00_0000 == 0)

-- `sim_flash_offset`
unfoldable pub flash_offset : ℕ → ℕ
flash_offset address = bit_and address 0x00ff_ffff

-- `sim_is_ctrl`
unfoldable pub is_ctrl : ℕ → Bool
is_ctrl address = leb 0x4002_2000 address && ltb address (0x4002_2000 + 0x400)

-- The loop of an erase from byte `i` of the page, for `n` bytes at most.
pub erase_bytes : ℕ → ℕ → ℕ → ℕ → (ℕ → ℕ) → ℕ → ℕ
erase_bytes zero i offset size flash = flash
erase_bytes (suc n) i offset size flash =
    let rest = erase_bytes n (i + 1) offset size (put flash (offset + i) 0xff) in
    if ltb (offset + i) size then rest else flash

-- The loop of `sim_flash_program_page`, with the count of errors.
pub program_bytes : ℕ → ℕ → ℕ → ℕ → (ℕ → ℕ) → (ℕ → ℕ) → ℕ → (ℕ → ℕ) × ℕ
program_bytes zero i offset size page_buf flash errors = (flash, errors)
program_bytes (suc n) i offset size page_buf flash errors =
    let old = flash (offset + i) in
    let wanted = page_buf i in
    let rest =
      program_bytes n (i + 1) offset size page_buf
        (put flash (offset + i) (u8 (bit_and old wanted)))
        (if bit_and old wanted == wanted then errors else errors + 1) in
    if ltb (offset + i) size then rest else (flash, errors)

unfoldable pub commit : Sim → (ℕ → ℕ) × ℕ → Sim
commit s (flash, errors) = record s {
  flash = flash;
  program_errors = errors;
  programs = s.programs + 1;
  busy_reads = busy_reads_max;
}

-- `sim_flash_program_page`
unfoldable pub program_page : Sim → Sim
unfolding commit
program_page s =
    if s.mode_unlocked
    then commit s
        (program_bytes 64 0 (flash_offset s.addr) s.flash_size s.page_buf s.flash s.program_errors)
    else record s { program_errors = s.program_errors + 1 }

-- What a write of CTLR starts, where it has STRT.
unfoldable pub start : Sim → ℕ → Sim
start s value =
    if not (bit_and value 0x2_0000 == 0)
    then (if s.mode_unlocked
        then record s {
          flash = erase_bytes 64 0 (flash_offset s.addr) s.flash_size s.flash;
          erases = s.erases + 1;
          busy_reads = busy_reads_max;
        }
        else record s { program_errors = s.program_errors + 1 })
    else if not (bit_and value 0x1_0000 == 0)
    then program_page s
    else if not (bit_and value 0x2 == 0)
    then record s {
      flash = erase_bytes 1024 0 (flash_offset s.addr) s.flash_size s.flash;
      erases = s.erases + 1;
      busy_reads = busy_reads_max;
    }
    else record s { busy_reads = busy_reads_max }

-- A write of CTLR, which is stored first.
unfoldable pub control : Sim → ℕ → Sim
control s value =
    if not (bit_and value 0x8_0000 == 0)
    then (if s.mode_unlocked
        then record s { ctlr = value; page_buf = λ i. 0xff; busy_reads = busy_reads_max }
        else record s {
          ctlr = value;
          program_errors = s.program_errors + 1;
          busy_reads = busy_reads_max;
        })
    else if bit_and value 0x40 == 0
    then record s { ctlr = value }
    else start (record s { ctlr = value }) value

-- `sim_ctrl_write`
unfoldable pub ctrl_write : Sim → ℕ → ℕ → Sim
ctrl_write s address value =
    if address == 0x4002_2004
    then (if value == 0x4567_0123
        then record s { key_stage = 1 }
        else if (value == 0xcdef_89ab) && (s.key_stage == 1)
        then record s { unlocked = true; key_stage = 0 }
        else record s { key_stage = 0 })
    else if address == 0x4002_2024
    then (if value == 0x4567_0123
        then record s { mode_key_stage = 1 }
        else if (value == 0xcdef_89ab) && (s.mode_key_stage == 1)
        then record s { mode_unlocked = true; mode_key_stage = 0 }
        else record s { mode_key_stage = 0 })
    else if address == 0x4002_2014
    then record s { addr = value }
    else if address == 0x4002_2010
    then control s value
    else s

unfoldable pub status : ℕ → ℕ → ℕ
status busy errors = bit_or (if ltb 0 busy then 0x1 else 0) (if ltb 0 errors then 0x10 else 0)

-- `sim_ctrl_read`
unfoldable pub ctrl_read : Sim → ℕ → ℕ × Sim
unfolding status
ctrl_read s address =
    if address == 0x4002_200c
    then (status s.busy_reads s.program_errors, record s { busy_reads = s.busy_reads - 1 })
    else if address == 0x4002_2010
    then ((if s.unlocked then bit_and s.ctlr (bit_not32 0x80) else bit_or s.ctlr 0x80), s)
    else if address == 0x4002_2014
    then (s.addr, s)
    else (0, s)

-- The bytes of a value from byte `i`, written to an array at an offset.
unfoldable pub put_bytes : ℕ → ℕ → (ℕ → ℕ) → ℕ → ℕ → ℕ → ℕ
put_bytes zero i f offset value = f
put_bytes (suc n) i f offset value =
    put_bytes n (i + 1) (put f (offset + i) (bit_and (value >>> (8 * i)) 0xff)) offset value

-- The bytes of an array of uint8_t from byte `i`, as a value on top of `result`.
unfoldable pub get_bytes : ℕ → ℕ → (ℕ → ℕ) → ℕ → ℕ → ℕ
get_bytes zero i f offset result = result
get_bytes (suc n) i f offset result =
    get_bytes n (i + 1) f offset (bit_or result (u8 (f (offset + i)) <<< (8 * i)))

-- The loop of a normal program, with the count of errors.
pub program_value : ℕ → ℕ → (ℕ → ℕ) → ℕ → ℕ → ℕ → (ℕ → ℕ) × ℕ
program_value zero i flash offset value errors = (flash, errors)
program_value (suc n) i flash offset value errors =
    let wanted = bit_and (value >>> (8 * i)) 0xff in
    let old = flash (offset + i) in
    program_value n (i + 1) (put flash (offset + i) (u8 (bit_and old wanted))) offset value
      (if bit_and old wanted == wanted then errors else errors + 1)

-- A store of `2 ^ size_log2` bytes to the flash, in range.
unfoldable pub store : Sim → ℕ → ℕ → ℕ → Sim
unfolding commit program_value
store s offset size_log2 value =
    if s.mode_unlocked && (not (bit_and s.ctlr 0x1_0000 == 0) && (size_log2 == 2))
    then (if leb (bit_and offset 0x3f + 4) 64
        then record s {
          page_buf = put_bytes 4 0 s.page_buf (bit_and offset 0x3f) value;
          busy_reads = busy_reads_max;
        }
        else record s { program_errors = s.program_errors + 1 })
    else if not s.unlocked || (bit_and s.ctlr 0x1 == 0)
    then record s { program_errors = s.program_errors + 1 }
    else commit s (program_value (2 ^ size_log2) 0 s.flash offset value s.program_errors)

-- `(uint32_t)(int32_t)(int16_t)result` on a halfword.
abbrev pub sign_extend : ℕ → ℕ
sign_extend h = if ltb h 0x8000 then h else h + 0xffff_0000

-- `sim_access` on the controller and the flash, where it writes.
unfoldable pub write : ℕ → ℕ → ℕ → Sim → Sim
write size_log2 address value s =
    if is_ctrl address
    then ctrl_write s (bit_and address 0xffff_fffc) value
    else if is_flash address
    then (if ltb s.flash_size (flash_offset address + 2 ^ size_log2)
        then s
        else store s (flash_offset address) size_log2 value)
    else s

-- The same where it reads; the value is 0 where the function leaves it.
unfoldable pub read : ℕ → ℕ → Sim → ℕ × Sim
read size_log2 address s =
    if is_ctrl address
    then (let (value, s') = ctrl_read s (bit_and address 0xffff_fffc) in (u32 value, s'))
    else if is_flash address
    then (if ltb s.flash_size (flash_offset address + 2 ^ size_log2)
        then (0, s)
        else let value = get_bytes (2 ^ size_log2) 0 s.flash (flash_offset address) 0 in
          (u32 (if size_log2 == 1 then sign_extend value else value), s))
    else (0, s)

-- Both as calls, which always succeed.
unfoldable pub access_write : ℕ → ℕ → ℕ → Action Sim ⊤
unfolding write
access_write size_log2 address value s = (ok tt, write size_log2 address value s)

unfoldable pub access_read : ℕ → ℕ → Action Sim ℕ
unfolding read
access_read size_log2 address s = (ok (read size_log2 address s).0, (read size_log2 address s).1)

-- The simulated core's memory, as the flash algorithms access it.
abbrev pub access : Access Sim
access = record {
  read32 = access_read 2;
  write32 = access_write 2;
  read_block = read_block_by access_read;
}
