-- ===== src/Sim/Core.antt =====
-- The simulated core (tests/sim_programmer.c): all of its memory, its registers, the interpreter of
-- the program buffer, and the debug module in front of it.
pub mod Access
pub mod Interpret
pub mod Decode
pub mod Ram
use libopenwch_tools.Prelude.{
  ℕ, zero, suc, ◌+◌, ◌*◌, ◌/◌, ◌%◌, ◌^◌, ◌-◌, Bool, true, false, ◌&&◌, ◌||◌, not, ◌==◌, ltb, leb,
  if◌then◌else◌, bit_and, bit_or, bit_xor, bit_not32, sub32, u32, ◌<<<◌, ◌>>>◌,
}
use libopenwch_tools.Status.{ok}
use libopenwch_tools.Dm.Command.{Dmi, data0, abstractcs, dmcommand, progbuf0, dcsr, dpc}
use libopenwch_tools.Sim.{Sim, is_ctrl, is_flash, put, put_bytes, get_bytes, sign_extend}
use libopenwch_tools.Sim as Sim

-- The part of `struct wl_sim` behind the programmer; `sim` is the flash and its controller.
pub record Core : Type 0 where
  pub sim : Sim
  pub ram : ℕ → ℕ
  pub ram_offset : ℕ
  pub ram_size : ℕ
  pub dmi : ℕ → ℕ
  pub gpr : ℕ → ℕ
  pub progbuf : ℕ → ℕ
  pub pc : ℕ
  pub dpc : ℕ
  pub dcsr : ℕ
  pub cmderr : ℕ
  pub illegal : ℕ

-- An access of so many bytes that `sim_access` makes in RAM.
unfoldable pub in_ram : ℕ → ℕ → Core → Bool
in_ram width address c =
    not (is_ctrl address || is_flash address)
    && (leb c.ram_offset address && ltb address (c.ram_offset + c.ram_size))
    && leb (address - c.ram_offset + width) c.ram_size

-- `sim_access` where it writes: each part of the memory takes what is meant for it.
unfoldable pub store : ℕ → ℕ → ℕ → Core → Core
unfolding in_ram
store size_log2 address value c = record c {
  sim = Sim.write size_log2 address value c.sim;
  ram =
      if in_ram (2 ^ size_log2) address c
      then put_bytes (2 ^ size_log2) 0 c.ram (address - c.ram_offset) value
      else c.ram;
}

-- `sim_access` where it reads.
unfoldable pub loaded : ℕ → ℕ → Core → ℕ
unfolding in_ram
loaded size_log2 address c =
    if in_ram (2 ^ size_log2) address c
    then (let value = get_bytes (2 ^ size_log2) 0 c.ram (address - c.ram_offset) 0 in
        u32 (if size_log2 == 1 then sign_extend value else value))
    else (Sim.read size_log2 address c.sim).0

unfoldable pub after_load : ℕ → ℕ → Core → Core
after_load size_log2 address c = record c { sim = (Sim.read size_log2 address c.sim).1 }

-- `sign_extend`, as the bit pattern of its result.
unfoldable pub extended : ℕ → ℕ → ℕ
extended value bits = sub32 (bit_xor value (1 <<< (bits - 1))) (1 <<< (bits - 1))

-- The immediate of a branch, as the interpreter puts it together.
unfoldable pub branch_immediate : ℕ → ℕ
branch_immediate instruction =
    bit_or
      (bit_or (bit_or ((instruction >>> 31) <<< 12) (bit_and (instruction >>> 25) 0x3f <<< 5))
        (bit_and (instruction >>> 8) 0xf <<< 1))
      (bit_and (instruction >>> 7) 0x1)

-- The core goes on, or its run is over.
pub data Run : Type 0 where
  on over : Core → Run

unfoldable pub bad : Core → Core
bad c = record c { illegal = c.illegal + 1 }

-- A register takes a value; x0 stays 0.
abbrev pub set_gpr : (ℕ → ℕ) → ℕ → ℕ → ℕ → ℕ
set_gpr gpr reg value = put gpr reg (if reg == 0 then 0 else value)

unfoldable pub execute_store : ℕ → Core → Core
unfolding store
execute_store instruction c =
    let imm = bit_or ((instruction >>> 25) <<< 5) (bit_and (instruction >>> 7) 0x1f) in
    let rs1 = bit_and (instruction >>> 15) 0x1f in
    let rs2 = bit_and (instruction >>> 20) 0x1f in
    let stored =
      store (bit_and (bit_and (instruction >>> 12) 0x7) 0x3) (u32 (c.gpr rs1 + imm)) (c.gpr rs2)
        c in
    record stored { pc = u32 (c.pc + 4) }

unfoldable pub execute_load : ℕ → Core → Core
unfolding loaded after_load
execute_load instruction c =
    let funct3 = bit_and (instruction >>> 12) 0x7 in
    let rd = bit_and (instruction >>> 7) 0x1f in
    let address = u32 (c.gpr (bit_and (instruction >>> 15) 0x1f) + (instruction >>> 20)) in
    let value = loaded (bit_and funct3 0x3) address c in
    record (after_load (bit_and funct3 0x3) address c) {
      gpr = set_gpr c.gpr rd (if funct3 == 0x4 then bit_and value 0xff else value);
      pc = u32 (c.pc + 4);
    }

unfoldable pub execute_addi : ℕ → Core → Core
unfolding extended
execute_addi instruction c = record c {
  gpr =
      set_gpr c.gpr (bit_and (instruction >>> 7) 0x1f)
        (u32 (c.gpr (bit_and (instruction >>> 15) 0x1f) + extended (instruction >>> 20) 12));
  pc = u32 (c.pc + 4);
}

unfoldable pub execute_bne : ℕ → Core → Core
unfolding extended branch_immediate
execute_bne instruction c =
    let equal =
      c.gpr (bit_and (instruction >>> 15) 0x1f) == c.gpr (bit_and (instruction >>> 20) 0x1f) in
    record c { pc = u32 (c.pc + (if equal then 4 else extended (branch_immediate instruction) 13)) }

-- One instruction.
unfoldable pub execute : ℕ → Core → Run
unfolding execute_store execute_load execute_addi execute_bne bad
execute instruction c =
    let opcode = bit_and instruction 0x7f in
    if opcode == 0x23
    then on (execute_store instruction c)
    else if opcode == 0x03
    then on (execute_load instruction c)
    else if opcode == 0x13
    then on (execute_addi instruction c)
    else if opcode == 0x63
    then on (execute_bne instruction c)
    else if opcode == 0x73
    then (if instruction >>> 20 == 0x001 then over c else over (bad c))
    else over (bad c)

-- The end of a round of `sim_run_progbuf`.
unfoldable pub go_on_from : (Core → Core) → Run → Core
unfolding bad
go_on_from next (over c) = c
go_on_from next (on c) = elim (leb 8 (c.pc / 4)) [ true ↦ bad c | false ↦ next c ]

-- `sim_run_progbuf`, for the steps that are left.
unfoldable pub run_progbuf : ℕ → Core → Core
unfolding go_on_from execute bad
run_progbuf zero c = bad c
run_progbuf (suc steps) c = go_on_from (run_progbuf steps) (execute (c.progbuf (c.pc / 4)) c)

abbrev pub max_steps : ℕ
max_steps = 256

-- The transfer of an abstract command between DATA0 and DPC or DCSR, or a general register.
unfoldable pub transfer_special : Bool → ℕ → Core → Core
transfer_special write regno c =
    if write
    then (if regno == dpc then record c { dpc = c.dmi data0 } else record c { dcsr = c.dmi data0 })
    else record c { dmi = put c.dmi data0 (if regno == dpc then c.dpc else c.dcsr) }

unfoldable pub transfer_gpr : Bool → ℕ → ℕ → Core → Core
transfer_gpr write aarsize gpr c =
    if write
    then record c { gpr = set_gpr c.gpr gpr (c.dmi data0) }
    else let value = c.gpr gpr in
      record c {
        dmi = put c.dmi data0 (
            if aarsize == 0
            then bit_and value 0xff
            else if aarsize == 1
            then bit_and value 0xffff
            else value);
      }

unfoldable pub post : Bool → Core → Core
unfolding run_progbuf
post postexec c = if postexec then run_progbuf max_steps (record c { pc = 0 }) else c

-- `sim_execute_command`
unfoldable pub execute_command : ℕ → Core → Core
unfolding transfer_special transfer_gpr post
execute_command command c =
    let aarsize = bit_and (command >>> 20) 0x7 in
    let postexec = not (bit_and (command >>> 18) 0x1 == 0) in
    let transfer = not (bit_and (command >>> 17) 0x1 == 0) in
    let write = not (bit_and (command >>> 16) 0x1 == 0) in
    let regno = bit_and command 0xffff in
    if not (bit_and (command >>> 24) 0x7f == 0)
    then record c { cmderr = 2 }
    else if not transfer
    then post postexec c
    else if (regno == dpc) || (regno == dcsr)
    then post postexec (transfer_special write regno c)
    else if leb 0x1000 regno && leb regno 0x101f
    then post postexec (transfer_gpr write aarsize (regno - 0x1000) c)
    else record c { cmderr = 2 }

-- `sim_dmi_write`
unfoldable pub dmi_write : ℕ → ℕ → Core → Core
unfolding execute_command
dmi_write reg value c₀ =
    let c = (if ltb reg 128 then record c₀ { dmi = put c₀.dmi reg value } else c₀) in
    if reg == abstractcs
    then record c { cmderr = bit_and c.cmderr (bit_not32 (bit_and (value >>> 8) 0x7)) }
    else if leb progbuf0 reg && leb reg 0x27
    then record c { progbuf = put c.progbuf (reg - progbuf0) value }
    else if reg == dmcommand
    then execute_command value c
    else c

-- `sim_dmi_read`
unfoldable pub dmi_read : ℕ → Core → ℕ
dmi_read reg c =
    if reg == abstractcs then u32 (c.cmderr <<< 8) else if ltb reg 128 then u32 (c.dmi reg) else 0

-- The debug module's registers, as the layers above access them.
abbrev pub core_dmi : Dmi Core
core_dmi = record {
  read = λ reg c. (ok (dmi_read reg c), c);
  write = λ reg value c. (ok tt, dmi_write reg value c);
}
