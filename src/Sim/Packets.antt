-- ===== src/Sim/Packets.antt =====
-- The simulated programmer's answers to requests (tests/sim_programmer.c), as a transport.
use libopenwch_tools.Prelude.{
  ℕ, ◌+◌, Bool, true, false, ◌&&◌, ◌||◌, not, Option, none, some, List, [], ◌∷◌, ◌==◌, ltb, leb,
  if◌then◌else◌, get_or, length, bit_or, u8, ◌<<<◌, ◌>>>◌,
}
use libopenwch_tools.Target.{Chip}
use libopenwch_tools.Linke.Request.{Transport}
use libopenwch_tools.Sim.{put}
use libopenwch_tools.Sim.Core.{Core, dmi_write, dmi_read}

-- `struct wl_sim`: the target behind the programmer, and what the programmer is doing.
pub record Programmer : Type 0 where
  pub core : Core
  pub chip : Chip
  pub configured : Bool
  pub chip_id : ℕ
  pub interface_speed : ℕ
  pub attached : Bool
  pub fail_attach_while_attached : Bool
  pub resets : ℕ

-- `sim_refuse`
unfoldable pub refuse : ℕ → List ℕ
refuse reply_max = if leb 4 reply_max then 0x81 ∷ 0x55 ∷ 0x01 ∷ 0x00 ∷ [] else []

abbrev pub done_reply : List ℕ
done_reply = 0x82 ∷ 0x0d ∷ 0x05 ∷ 0x09 ∷ []

-- The control requests, by their argument.
unfoldable pub control : ℕ → Programmer → List ℕ × Programmer
control sub p =
    if sub == 0x01
    then (0x82 ∷ 0x0d ∷ 0x04 ∷ 0x02 ∷ 0x07 ∷ 18 ∷ 0x00 ∷ [], p)
    else if sub == 0x02
    then (if p.attached && p.fail_attach_while_attached then (done_reply, p) else (
      0x82
          ∷ 0x0d
          ∷ 0x05
          ∷ p.chip.linke_id
          ∷ u8 (p.chip.model_id >>> 8)
          ∷ u8 p.chip.model_id
          ∷ 0x05
          ∷ 0x00
          ∷ [],
      record p { attached = true },
    ))
    else if sub == 0x13
    then (done_reply, (if p.attached then record p { resets = p.resets + 1 } else p))
    else if sub == 0xff
    then (done_reply, record p { attached = false })
    else (done_reply, p)

-- The value in a register request.
unfoldable pub request_value : List ℕ → ℕ
request_value request =
    bit_or
      (bit_or (bit_or (get_or request 4 0 <<< 24) (get_or request 5 0 <<< 16))
        (get_or request 6 0 <<< 8))
      (get_or request 7 0)

-- The register's value afterwards, highest byte first.
unfoldable pub register_reply : ℕ → ℕ → List ℕ
register_reply reg value =
    0x82
    ∷ 0x08
    ∷ 0x06
    ∷ reg
    ∷ u8 (value >>> 24)
    ∷ u8 (value >>> 16)
    ∷ u8 (value >>> 8)
    ∷ u8 value
    ∷ 0x00
    ∷ []

unfoldable pub register : ℕ → ℕ → ℕ → ℕ → Programmer → List ℕ × Programmer
unfolding register_reply refuse
register reply_max reg value operation p =
    if not p.configured
    then (refuse reply_max, p)
    else if operation == 0x02
    then (let core = dmi_write reg value p.core in
        (register_reply reg (dmi_read reg core), record p { core = core }))
    else if operation == 0x01
    then (register_reply reg (dmi_read reg p.core), p)
    else (refuse reply_max, p)

-- The reply to a request that starts as it should.
unfoldable pub answered : List ℕ → ℕ → Programmer → List ℕ × Programmer
unfolding control register refuse request_value
answered request reply_max p =
    if get_or request 1 0 == 0x0d
    then control (if ltb 3 (length request) then get_or request 3 0 else 0) p
    else if get_or request 1 0 == 0x0c
    then (if ltb (length request) 5 then (refuse reply_max, p) else (
      0x82 ∷ 0x0c ∷ 0x02 ∷ get_or request 3 0 ∷ [],
      record p {
        chip_id = get_or request 3 0;
        interface_speed = get_or request 4 0;
        configured = true;
      },
    ))
    else if get_or request 1 0 == 0x0b
    then (0x82 ∷ 0x0b ∷ 0x01 ∷ [], record p { attached = false })
    else if get_or request 1 0 == 0x08
    then (if ltb (length request) 9
        then (refuse reply_max, p)
        else register reply_max (get_or request 3 0) (request_value request) (get_or request 8 0) p)
    else (refuse reply_max, p)

unfoldable pub some_reply : List ℕ × Programmer → Option (List ℕ) × Programmer
some_reply (reply, p) = (some reply, p)

-- `sim_command`
unfoldable pub command : Programmer → List ℕ → ℕ → Option (List ℕ) × Programmer
unfolding answered some_reply
command p request reply_max =
    if ltb (length request) 3 || not (get_or request 0 0 == 0x81)
    then (none, p)
    else some_reply (answered request reply_max p)

abbrev pub sim_transport : Transport Programmer
sim_transport = record { command = command }

-- `wl_sim_new`, for a part; memory allocation succeeds.
unfoldable pub sim_new : Chip → Option Programmer
sim_new chip =
    if (chip.flash_size == 0) || (chip.ram_size == 0)
    then none
    else some (record {
      core = record {
        sim = record {
          flash = λ x. 0xff;
          flash_size = chip.flash_size;
          key_stage = 0;
          mode_key_stage = 0;
          unlocked = false;
          mode_unlocked = false;
          ctlr = 0;
          addr = 0;
          page_buf = λ x. 0xff;
          busy_reads = 0;
          erases = 0;
          programs = 0;
          program_errors = 0;
        };
        ram = λ x. 0;
        ram_offset = chip.ram_offset;
        ram_size = chip.ram_size;
        dmi = λ x. 0;
        gpr = λ x. 0;
        progbuf = λ x. 0;
        pc = 0;
        dpc = chip.flash_base;
        dcsr = 0;
        cmderr = 0;
        illegal = 0;
      };
      chip = chip;
      configured = false;
      chip_id = 0;
      interface_speed = 0;
      attached = false;
      fail_attach_while_attached = false;
      resets = 0;
    })

-- `wl_sim_flash_fill`
unfoldable pub flash_fill : ℕ → ℕ → ℕ → Programmer → Programmer
flash_fill offset value length p =
    let sim = p.core.sim in
    let end = (if ltb sim.flash_size (offset + length) then sim.flash_size else offset + length) in
    if leb sim.flash_size offset then p else record p {
      core = record (p.core) {
        sim = record sim { flash = λ x. if leb offset x && ltb x end then value else sim.flash x };
      };
    }

-- `wl_sim_flash_poke`
unfoldable pub flash_poke : ℕ → ℕ → Programmer → Programmer
flash_poke offset value p =
    let sim = p.core.sim in
    if ltb offset sim.flash_size
    then record p {
      core = record (p.core) { sim = record sim { flash = put sim.flash offset value } };
    }
    else p

-- `wl_sim_set_fail_attach_while_attached`
unfoldable pub set_fail_attach_while_attached : Bool → Programmer → Programmer
set_fail_attach_while_attached fail p = record p { fail_attach_while_attached = fail }
