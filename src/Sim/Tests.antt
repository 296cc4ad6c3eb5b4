-- ===== src/Sim/Tests.antt =====
-- Runs against the simulated programmer.
use libopenwch_tools.Prelude.{
  ℕ, ◌+◌, ◌-◌, ◌*◌, leb, ltb, ◌&&◌, ◌==◌, if◌then◌else◌, ◌/◌, ◌%◌, ◌^◌, ◌≡◌, ◌↔◌, refl, inr, true,
  false, some, List, [], ◌∷◌, arith,
}
use libopenwch_tools.Status.{ok}
use libopenwch_tools.Target.Tests.{v003}
use libopenwch_tools.Dm.Encode.{rv_store, rv_load, rv_addi, rv_bne}
use libopenwch_tools.Linke.Request.{Link}
use libopenwch_tools.Linke.Control.{attach_transport}
use libopenwch_tools.Linke.Program.{write_flash}
use libopenwch_tools.Flash.Range.{range_ok, normalise}
use libopenwch_tools.Flash.Image.Program.{IsPlaced}
use libopenwch_tools.Sim.Core.{Core, core_dmi, on, execute}
use libopenwch_tools.Sim.Core as Core
use libopenwch_tools.Sim.Registers.{dmi_write-dmi_read}
use libopenwch_tools.Linke.Register.{dmi_write, dmi_read}
use libopenwch_tools.Sim.Core.Decode.{execute-encoded, execute-rv_bne_place, with_register}
use libopenwch_tools.Sim.Packets.{
  Programmer, sim_transport, sim_new, flash_fill, flash_poke, set_fail_attach_while_attached,
  command, answered, some_reply, control, done_reply,
}
use libopenwch_tools.Sim.Requests.{Ready}
use libopenwch_tools.Gdb.Breakpoint.{Breakpoint, Outcome, insert, remove}
use libopenwch_tools.Gdb.Breakpoint.Restore.{uses}
use libopenwch_tools.Gdb.Patch.{memory, mem_patch}
use libopenwch_tools.Sim.Patching.{IsPaged, Resting, InPage, mem_patch-IsPlaced}
use libopenwch_tools.Sim.Breakpoints.{ebreak, insert-remove_flash}
use libopenwch_tools.Sim.Programming.{IsIdle, write_flash-image}

-- The programmer that `sim_new` gives for the part.
abbrev device : Programmer
device = record {
  core = record {
    sim = record {
      flash = λ x. 0xff;
      flash_size = 16384;
      key_stage = 0;
      mode_key_stage = 0;
      unlocked = false;
      mode_unlocked = false;
      ctlr = 0;
      addr = 0;
      page_buf = λ x. 0xff;
      busy_reads = 0;
      erases = 0;
      programs = 0;
      program_errors = 0;
    };
    ram = λ x. 0;
    ram_offset = 0x2000_0000;
    ram_size = 2048;
    dmi = λ x. 0;
    gpr = λ x. 0;
    progbuf = λ x. 0;
    pc = 0;
    dpc = 0x0800_0000;
    dcsr = 0;
    cmderr = 0;
    illegal = 0;
  };
  chip = v003;
  configured = false;
  chip_id = 0;
  interface_speed = 0;
  attached = false;
  fail_attach_while_attached = false;
  resets = 0;
}

is_new : sim_new v003 ≡ some device
unfolding sim_new
is_new = refl

abbrev link : Link Programmer
link = attach_transport sim_transport device

abbrev image : List ℕ
image = 1 ∷ 2 ∷ 3 ∷ []

link-Ready : Ready link (device.core.sim)
unfolding attach_transport
link-Ready = record {
  shows = record { flash = refl; no_error = refl; ram_low = omega arith; ram_high = omega arith };
  up = (refl, refl);
  agrees = λ e. cc;
}

device-IsIdle : IsIdle (device.core.sim)
device-IsIdle = record {
  ctlr_zero = refl;
  not_busy = refl;
  no_errors = refl;
  bytes = λ x. omega arith;
  window = omega arith;
  pages = refl;
}

accepted : range_ok v003 0x3e 3 ≡ true
unfolding range_ok
accepted = refl

-- At the alias, across the border of two pages.
write_flash-image_example :
    (l' : Link Programmer) × (write_flash sim_transport v003 0x3e image true link ≡ (ok tt, l'))
    × IsPlaced (λ x. 0xff) (normalise v003 0x3e) image (l'.world.core.sim.flash)
    × (l'.world.core.sim.program_errors ≡ 0)
unfolding attach_transport
write_flash-image_example =
    write_flash-image v003 link 0x3e image true refl refl refl refl link-Ready device-IsIdle
      (omega arith, (omega arith, (omega arith, tt))) (omega arith) (omega arith) (omega arith)
      accepted

-- RAM in use, and x9 at a place in it.
abbrev running : Core
running = record (device.core) { gpr = λ x. if x == 9 then 0x2000_0010 else 0x1234_5678 }

execute-encoded_example :
    ((ram : ℕ → ℕ) × (execute (rv_store 2 8 9) running ≡ on (record running { ram = ram; pc = 4 }))
      × ((x : ℕ)
          → ram x
            ≡ (if leb 0x10 x && ltb x 0x14 then 0x1234_5678 / 2 ^ (8 * (x - 0x10)) % 256 else 0)))
    × (execute (rv_load 2 8 9) running ≡ on (with_register running 8 0))
    × (execute (rv_load 4 8 9) running ≡ on (with_register running 8 0))
    × (execute (rv_addi 8 9 0xffc) running ≡ on (with_register running 8 0x2000_000c))
execute-encoded_example =
    execute-encoded running 2 8 9 0xffc (omega arith) (omega arith) (omega arith) (omega arith)
      (omega arith) (omega arith) (omega arith) (λ x. omega arith)

-- A branch back by four bytes, which goes back by 2051 bytes.
execute-rv_bne_place_example :
    (execute (rv_bne 8 9 0x1ffc) running ≡ on (record running { pc = 0xffff_f7fd }))
    × (((0 + 0xffff_f7fd) % 2 ^ 32 ≡ (0 + 0xffff_fffc) % 2 ^ 32) ↔ (0x1ffc / 2 ^ 11 % 2 ≡ 0))
execute-rv_bne_place_example =
    execute-rv_bne_place running 8 9 0x1ffc (omega arith) (omega arith) refl (omega arith)

abbrev chosen : Link Programmer
chosen = record {
  world = record device { core = running; configured = true };
  attached = true;
  open_ = true;
  chip_id = 0;
  configured = true;
}

-- A write of DATA0 and a read of it.
dmi_write-dmi_read_example :
    (dmi_write sim_transport 0x04 0xcafe chosen ≡ (
      ok tt,
      record chosen { world = record (chosen.world) { core = Core.dmi_write 0x04 0xcafe running } },
    ))
    × (dmi_read sim_transport 0x04 chosen ≡ (ok (Core.dmi_read 0x04 running), chosen))
dmi_write-dmi_read_example = dmi_write-dmi_read chosen 0x04 0xcafe (refl, refl) refl (omega arith)

device-Resting : Resting v003 (device.core)
unfolding attach_transport
device-Resting = record { size = refl; shows = link-Ready.shows; idle = device-IsIdle }

v003-IsPaged : IsPaged v003
v003-IsPaged = record { algo = refl; erase = refl; base = refl }

-- Four bytes at the last place for them in the second page.
four-InPage : InPage v003 0x0800_007c (ebreak 4)
four-InPage = record {
  low = omega arith;
  high = omega arith;
  page = omega arith;
  some_bytes = omega arith;
  all = (omega arith, (omega arith, (omega arith, (omega arith, tt))));
}

mem_patch-IsPlaced_example :
    (k' : Core) × (mem_patch core_dmi v003 0x0800_007c (ebreak 4) (device.core) ≡ (ok tt, k'))
    × IsPlaced (λ x. 0xff) 0x0800_007c (ebreak 4) k'.sim.flash
    × Resting v003 k'
mem_patch-IsPlaced_example =
    mem_patch-IsPlaced v003 (device.core) 0x0800_007c (ebreak 4) v003-IsPaged device-Resting
      four-InPage

-- A slot in use for another address, and a free one.
abbrev table : List Breakpoint
table =
    record { used = true; address = 0x0800_0004; kind = 4; original = 1 ∷ 2 ∷ 3 ∷ 4 ∷ [] }
    ∷ record { used = false; address = 0; kind = 0; original = [] }
    ∷ []

abbrev set : Outcome Core
set = insert (memory core_dmi v003) 0x0800_0008 4 table (device.core)

abbrev unset : Outcome Core
unset = remove (memory core_dmi v003) 0x0800_0008 4 set.table set.state

insert-remove_flash_example :
    (set.answer ≡ true)
    × IsPlaced (λ x. 0xff) 0x0800_0008 (ebreak 4) set.state.sim.flash
    × (unset.answer ≡ true)
    × ((x : ℕ) → unset.state.sim.flash x ≡ 0xff)
    × (uses unset.table ≡ true ∷ false ∷ [])
insert-remove_flash_example =
    insert-remove_flash v003 (device.core) 0x0800_0008 4 table v003-IsPaged device-Resting
      (omega arith) (omega arith) (inr refl) refl refl (refl, (refl, tt))

-- A fill that reaches the end of the flash stops there.
filled_to_the_end :
    let p = flash_poke 16382 0x11 (flash_fill 16383 0x22 4 device) in
    (p.core.sim.flash 16382 ≡ 0x11)
    × (p.core.sim.flash 16383 ≡ 0x22)
    × (p.core.sim.flash 16384 ≡ 0xff)
unfolding flash_fill flash_poke
filled_to_the_end = (refl, refl, refl)

-- A programmer that was told to, refuses a second attach without the identifiers.
second_attach :
    (command
      (record (set_fail_attach_while_attached true device) { attached = true })
      (0x81 ∷ 0x0d ∷ 0x01 ∷ 0x02 ∷ [])
      64).0
    ≡ some done_reply
unfolding set_fail_attach_while_attached command answered some_reply control
second_attach = refl
