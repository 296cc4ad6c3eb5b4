-- ===== src/Gdb/Preserves/Calls.antt =====
-- The calls on the target that packets and monitor commands make keep what each register access
-- keeps (src/gdb_server.c).
use libopenwch_tools.Prelude.{
  ℕ, zero, suc, ◌+◌, Option, none, some, List, [], ◌∷◌, ◌==◌, ltb, codes, drop, ◌++◌,
}
use libopenwch_tools.Status.{Action, Result, usage}
use libopenwch_tools.Status.Preserves.{
  Preserves, preserves, if-Preserves, fail-Preserves, pure-Preserves, bind-Preserves,
  then-Preserves,
}
use libopenwch_tools.Target.{Chip}
use libopenwch_tools.Dm.Command.{Dmi}
use libopenwch_tools.Dm.Preserves.{
  IsKept, gpr_read-Preserves, gpr_write-Preserves, pc_read-Preserves, pc_write-Preserves,
  csr_read-Preserves, csr_write-Preserves, read32-Preserves, write32-Preserves, write16-Preserves,
  write8-Preserves, read_block-Preserves,
}
use libopenwch_tools.Flash.Preserves.{of_dmi-IsKeeping, flash_write-Preserves}
use libopenwch_tools.Gdb.Breakpoint.Preserves as Breakpoint
use libopenwch_tools.Gdb.Contents.{
  read_range, contents, write_bytes, write_parsed, write_range, store,
}
use libopenwch_tools.Gdb.Monitor.{
  monitor_reset, monitor_halt, with_number, command_read32, command_write32, command_getcsr,
  command_setcsr, hex3, line,
}
use libopenwch_tools.Gdb.Patch.{mem_read, flash_patch, mem_patch, memory}
use libopenwch_tools.Gdb.Registers.{
  after_char, read_gprs, registers, read_register, write_register, access_register, packet_reply,
  reg_pc, rv32e_gprs,
}
use libopenwch_tools.Gdb.Hex.{parse_hex_u32, format_hex_u32_le}
use libopenwch_tools.Gdb.Document.{hex8}
use libopenwch_tools.Gdb.Preserves.{halt-Preserves, wait_halted-Preserves, enable_ebreak-Preserves}

module _ {S : Type 0} {P : S → Type 0} {D : Dmi S} (kept : IsKept P D) where
  read_gprs-Preserves : (n reg : ℕ) → Preserves P (read_gprs D n reg)
  unfolding read_gprs
  read_gprs-Preserves zero reg = search (preserves)
  read_gprs-Preserves (suc n) reg =
      search (preserves, gpr_read-Preserves kept, read_gprs-Preserves n)

  pub registers-Preserves : Preserves P (registers D)
  unfolding registers
  registers-Preserves = bind-Preserves (read_gprs-Preserves rv32e_gprs 0) (λ gprs.
      bind-Preserves (pc_read-Preserves kept) (λ pc. pure-Preserves (gprs ++ format_hex_u32_le pc)))

  read_register-Preserves : (reg : ℕ) → Preserves P (read_register D reg)
  unfolding read_register
  read_register-Preserves reg =
      bind-Preserves
        (if-Preserves (reg == reg_pc) (pc_read-Preserves kept) (gpr_read-Preserves kept reg))
        (λ value. pure-Preserves (format_hex_u32_le value))

  write_register-Preserves :
      (reg : ℕ) (o : Option (ℕ × List ℕ)) → Preserves P (write_register D reg o)
  unfolding write_register
  write_register-Preserves reg none = search (preserves)
  write_register-Preserves reg (some (value, rest)) =
      search (preserves, gpr_write-Preserves kept, pc_write-Preserves kept)

  access_register-Preserves :
      (payload : List ℕ) (o : Option (ℕ × List ℕ)) → Preserves P (access_register D payload o)
  unfolding access_register
  access_register-Preserves payload none = fail-Preserves usage
  access_register-Preserves payload (some (reg, rest)) =
      if-Preserves (ltb reg_pc reg) (fail-Preserves usage)
        (elim (after_char b'=' payload)
          as (λ o. Preserves P {A = Result (List ℕ)} (elim o [
            | none ↦ read_register D reg
            | some value ↦ write_register D reg (parse_hex_u32 value)
          ])) [
            | none ↦ read_register-Preserves reg
            | some value ↦ write_register-Preserves reg (parse_hex_u32 value)
          ])

  pub packet_reply-Preserves : (payload : List ℕ) → Preserves P (packet_reply D payload)
  unfolding packet_reply
  packet_reply-Preserves payload =
      access_register-Preserves payload (parse_hex_u32 (drop 1 payload))

  read_range-Preserves : (o : Option (ℕ × (ℕ × List ℕ))) → Preserves P (read_range D o)
  unfolding read_range
  read_range-Preserves none = search (preserves)
  read_range-Preserves (some (address, (length, rest))) =
      search (preserves, read_block-Preserves kept)

  pub contents-Preserves : (payload : List ℕ) → Preserves P (contents D payload)
  unfolding contents
  contents-Preserves payload = search (read_range-Preserves)

  write_bytes-Preserves : (address : ℕ) (bytes : List ℕ) → Preserves P (write_bytes D address bytes)
  unfolding write_bytes
  write_bytes-Preserves address [] = search (preserves)
  write_bytes-Preserves address (b ∷ bytes) =
      let rest = write_bytes-Preserves (address + 1) bytes in
      then-Preserves (write8-Preserves kept _ b) rest

  write_parsed-Preserves :
      (address : ℕ) (o : Option (List ℕ)) → Preserves P (write_parsed D address o)
  unfolding write_parsed
  write_parsed-Preserves address none = search (preserves)
  write_parsed-Preserves address (some bytes) = search (preserves, write_bytes-Preserves)

  write_range-Preserves : (o : Option (ℕ × (ℕ × List ℕ))) → Preserves P (write_range D o)
  unfolding write_range
  write_range-Preserves none = search (preserves)
  write_range-Preserves (some (address, (length, rest))) =
      search (preserves, write_parsed-Preserves)

  pub store-Preserves : (payload : List ℕ) → Preserves P (store D payload)
  unfolding store
  store-Preserves payload = search (write_range-Preserves)

  mem_read-Preserves : (c : Chip) (address n : ℕ) → Preserves P (mem_read D c address n)
  unfolding mem_read
  mem_read-Preserves c = read_block-Preserves kept

  flash_patch-Preserves :
      (c : Chip) (address : ℕ) (bytes : List ℕ) → Preserves P (flash_patch D c address bytes)
  unfolding flash_patch
  flash_patch-Preserves c address bytes =
      search (preserves, read_block-Preserves kept, flash_write-Preserves (of_dmi-IsKeeping kept) c)

  mem_patch-Preserves :
      (c : Chip) (address : ℕ) (bytes : List ℕ) → Preserves P (mem_patch D c address bytes)
  unfolding mem_patch
  mem_patch-Preserves c address bytes = if-Preserves _ (flash_patch-Preserves c address bytes) (
      if-Preserves _ (write16-Preserves kept address _)
        (if-Preserves _ (write32-Preserves kept address _) (fail-Preserves usage)))

  with_number-Preserves :
      {A : Type 0} (call : ℕ → Action S A) (o : Option (ℕ × List ℕ))
      → ((n : ℕ) → Preserves P (call n))
      → Preserves P (with_number D call o)
  unfolding with_number
  with_number-Preserves call none k = fail-Preserves usage
  with_number-Preserves call (some p) k = k p.0

  pub monitor_reset-Preserves : Preserves P (monitor_reset D)
  unfolding monitor_reset
  monitor_reset-Preserves =
      search (preserves, kept.writes, wait_halted-Preserves, enable_ebreak-Preserves) depth 9

  pub monitor_halt-Preserves : Preserves P (monitor_halt D)
  unfolding monitor_halt
  monitor_halt-Preserves =
      search (preserves, halt-Preserves, wait_halted-Preserves, enable_ebreak-Preserves) depth 9

  pub command_read32-Preserves : (arg : List ℕ) → Preserves P (command_read32 D arg)
  unfolding command_read32
  command_read32-Preserves arg = with_number-Preserves _ (parse_hex_u32 arg) (λ address.
      bind-Preserves (read32-Preserves kept address)
        (λ value. pure-Preserves (codes "0x" ++ (hex8 address ++ line " = " value))))

  pub command_write32-Preserves : (arg arg2 : List ℕ) → Preserves P (command_write32 D arg arg2)
  unfolding command_write32
  command_write32-Preserves arg arg2 = with_number-Preserves _ (parse_hex_u32 arg) (λ address.
      with_number-Preserves _ (parse_hex_u32 arg2) (λ value.
        then-Preserves (write32-Preserves kept address value) (pure-Preserves (codes "OK\n"))))

  pub command_getcsr-Preserves : (arg : List ℕ) → Preserves P (command_getcsr D arg)
  unfolding command_getcsr
  command_getcsr-Preserves arg = with_number-Preserves _ (parse_hex_u32 arg) (λ csr.
      bind-Preserves (csr_read-Preserves kept csr)
        (λ value. pure-Preserves (codes "csr 0x" ++ (hex3 csr ++ line " = " value))))

  pub command_setcsr-Preserves : (arg arg2 : List ℕ) → Preserves P (command_setcsr D arg arg2)
  unfolding command_setcsr
  command_setcsr-Preserves arg arg2 = with_number-Preserves _ (parse_hex_u32 arg) (λ csr.
      with_number-Preserves _ (parse_hex_u32 arg2) (λ value.
        then-Preserves (csr_write-Preserves kept csr value) (pure-Preserves (codes "OK\n"))))

  pub memory-IsKept : (c : Chip) → Breakpoint.IsKept P (memory D c)
  memory-IsKept c = record { reads = mem_read-Preserves c; patches = mem_patch-Preserves c }
