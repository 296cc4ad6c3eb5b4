-- ===== src/Gdb/Preserves.antt =====
-- Run control keeps what each register access keeps (src/gdb_server.c).
pub mod Calls
use libopenwch_tools.Prelude.{
  ℕ, zero, suc, ◌+◌, Bool, true, false, Option, none, some, List, [], ◌∷◌, ◌==◌, ltb, codes, drop,
  ◌++◌,
}
use libopenwch_tools.Status.{Action, Result, ok, err, ⊤, usage, ◌>>◌}
use libopenwch_tools.Status.Preserves.{
  Preserves, preserves, if-Preserves, fail-Preserves, pure-Preserves, bind-Preserves,
  then-Preserves,
}
use libopenwch_tools.Target.{Chip}
use libopenwch_tools.Dm.Command.{Dmi}
use libopenwch_tools.Dm.Preserves.{
  IsKept, gpr_read-Preserves, gpr_write-Preserves, pc_read-Preserves, pc_write-Preserves,
  csr_read-Preserves, csr_write-Preserves, dcsr_read-Preserves, dcsr_write-Preserves,
  read32-Preserves, write32-Preserves, write16-Preserves, write8-Preserves, read_block-Preserves,
}
use libopenwch_tools.Flash.Preserves.{of_dmi-IsKeeping, flash_write-Preserves}
use libopenwch_tools.Gdb.Breakpoint.Preserves as Breakpoint
use libopenwch_tools.Gdb.Contents.{
  read_range, contents, write_bytes, write_parsed, write_range, store,
}
use libopenwch_tools.Gdb.Monitor.{
  monitor_reset, monitor_halt, with_number, command_read32, command_write32, command_getcsr,
  command_setcsr, hex3, line,
}
use libopenwch_tools.Gdb.Patch.{mem_read, flash_patch, mem_patch, memory}
use libopenwch_tools.Gdb.Registers.{
  after_char, read_gprs, registers, read_register, write_register, access_register, packet_reply,
  reg_pc, rv32e_gprs,
}
use libopenwch_tools.Gdb.Hex.{parse_hex_u32, format_hex_u32_le}
use libopenwch_tools.Gdb.Document.{hex8}
use libopenwch_tools.Gdb.Run.{
  halt, halted_of, is_halted, unless_halted, wait_halted_for, wait_halted, enable_ebreak, resume,
  clear_step, step_with, step, halt_polls,
}
use libopenwch_tools.Gdb.Session.{interrupted}

module _ {S : Type 0} {P : S → Type 0} {D : Dmi S} (kept : IsKept P D) where
  pub halt-Preserves : Preserves P (halt D)
  unfolding halt
  halt-Preserves = search (kept.writes)

  halted_of-kept : (p : Result ℕ × S) → P p.1 → P (halted_of D p).1
  unfolding halted_of
  halted_of-kept (ok status, s) h = h
  halted_of-kept (err e, s) h = h

  pub is_halted-Preserves : Preserves P (is_halted D)
  unfolding is_halted
  is_halted-Preserves = record { run = λ s p. halted_of-kept _ ((kept.reads _).run s p) }

  unless_halted-kept :
      (again : Action S ⊤) (p : Bool × S)
      → Preserves P again
      → P p.1
      → P (unless_halted D again p).1
  unfolding unless_halted
  unless_halted-kept again (true, s) k h = h
  unless_halted-kept again (false, s) k h = k.run s h

  wait_halted_for-Preserves : (n : ℕ) → Preserves P (wait_halted_for D n)
  unfolding wait_halted_for
  wait_halted_for-Preserves zero = record { run = λ s p. p }
  wait_halted_for-Preserves (suc n) = record {
    run = λ s p.
        unless_halted-kept (wait_halted_for D n) (is_halted D s) (wait_halted_for-Preserves n)
          (is_halted-Preserves.run s p);
  }

  pub wait_halted-Preserves : Preserves P (wait_halted D)
  unfolding wait_halted
  wait_halted-Preserves = wait_halted_for-Preserves halt_polls

  pub enable_ebreak-Preserves : Preserves P (enable_ebreak D)
  unfolding enable_ebreak
  enable_ebreak-Preserves = search (preserves, dcsr_read-Preserves kept, dcsr_write-Preserves kept)

  pub resume-Preserves : Preserves P (resume D)
  unfolding resume
  resume-Preserves = search (preserves, enable_ebreak-Preserves, kept.writes)

  clear_step-kept : (value : ℕ) (p : Result ⊤ × S) → P p.1 → P (clear_step D value p).1
  unfolding clear_step
  clear_step-kept value (r, s) h = (dcsr_write-Preserves kept _).run s h

  resumed-Preserves : Preserves P (do resume D; wait_halted D)
  resumed-Preserves = search (preserves, resume-Preserves, wait_halted-Preserves)

  cleared-Preserves :
      (value : ℕ)
      → Preserves P {A = Result ⊤} (λ s. clear_step D value ((do resume D; wait_halted D) s))
  cleared-Preserves value = record {
    run = λ s p. clear_step-kept value _ (resumed-Preserves.run s p);
  }

  step_with-Preserves : (value : ℕ) → Preserves P (step_with D value)
  unfolding step_with
  step_with-Preserves value =
      bind-Preserves (dcsr_write-Preserves kept value) (λ _. cleared-Preserves value)

  pub step-Preserves : Preserves P (step D)
  unfolding step
  step-Preserves = search (preserves, dcsr_read-Preserves kept, step_with-Preserves)

  pub interrupted-Preserves : (c : Chip) → Preserves P (interrupted D c)
  unfolding interrupted
  interrupted-Preserves c = search (preserves, halt-Preserves, wait_halted-Preserves)
