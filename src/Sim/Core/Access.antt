-- ===== src/Sim/Core/Access.antt =====
-- A memory access by the debug module's program buffer (src/dm.c) is one access of the simulated
-- core (tests/sim_programmer.c).
use libopenwch_tools.Prelude.{
  ℕ, zero, suc, ◌+◌, ◌^◌, ◌<◌, ◌≤◌, ◌≡◌, refl, sym, ap, ap₂, ◌∙◌, inl, inr, false, ◌||◌, ◌==◌, u32,
  arith, Bool-cases, if◌then◌else◌, bit_and,
}
use libopenwch_tools.Status.{Result, ok, ⊤}
use mathlib.Core.Path.{subst}
use libopenwch_tools.Status.Simulates.{Simulates, Any}
use libopenwch_tools.Dm.Encode.{write_program, read_program, rv_store, rv_load, rv_ebreak}
use libopenwch_tools.Dm.Command.{
  unless_idle, poll, finish_wait, wait_for, wait, issue, command_out, gpr_write, gpr_read,
  load_words, load_program, run_write, run_read,
}
use libopenwch_tools.Dm.Memory.{write32, read32, read_sized, read_block}
use libopenwch_tools.Flash.Ch32v0.Alike.{Clear, IsAlike}
use libopenwch_tools.Prelude.Bits.{bit_and_mask}
use libopenwch_tools.Dm.Memory.Alike.{read_block_by-Alike}
use libopenwch_tools.Flash.Access.{of_dmi}
use libopenwch_tools.Sim.Read.{read-byte}
use libopenwch_tools.Sim.{Sim, access, is_ctrl, is_flash, access_read, access_write}
use libopenwch_tools.Sim as Sim
use libopenwch_tools.Sim.Core.{
  Core, core_dmi, in_ram, store, loaded, after_load, execute, go_on_from, run_progbuf,
  transfer_special, transfer_gpr, post, execute_command, dmi_write, dmi_read,
}

-- The core's flash and controller are the given ones, its debug module has seen no error, and its
-- RAM lies between the flash and the controller.
pub record Shows (c : Core) (s : Sim) : Type 0 where
  pub flash : c.sim ≡ s
  pub no_error : c.cmderr ≡ 0
  pub ram_low : 0x2000_0000 ≤ c.ram_offset
  pub ram_high : c.ram_offset + c.ram_size ≤ 0x4000_0000

not_in_ram :
    (width a : ℕ) (c : Core)
    → 0x2000_0000 ≤ c.ram_offset
    → c.ram_offset + c.ram_size ≤ 0x4000_0000
    → Clear a
    → in_ram width a c ≡ false
unfolding in_ram
not_in_ram width a c low high clear = elim (Bool-cases (is_ctrl a || is_flash a)) [
  | inl e ↦ rw e refl
  | inr e ↦ rw e (ground arith)
]

idle : (c : Core) → c.cmderr ≡ 0 → c ≡ record c { cmderr = 0 }
idle c e = λ i. record c { cmderr = e i }

write_lem :
    (a v : ℕ) (c : Core)
    → (r : Core) × (write32 core_dmi a v (record c { cmderr = 0 }) ≡ (ok tt, r))
      × (r.sim ≡ Sim.write 2 (u32 (a + 0)) v c.sim)
      × (r.cmderr ≡ 0)
      × (r.ram_offset ≡ c.ram_offset)
      × (r.ram_size ≡ c.ram_size)
unfolding write32 write_program rv_store rv_ebreak run_write load_program load_words gpr_write
    command_out issue wait wait_for poll unless_idle finish_wait store execute go_on_from
    run_progbuf transfer_special transfer_gpr post execute_command dmi_write dmi_read
write_lem a v c = ((write32 core_dmi a v (record c { cmderr = 0 })).1, refl, refl, refl, refl, refl)

read_lem :
    (size a : ℕ) (c : Core)
    → size ≤ 2
    → (r : Core) × (read_sized core_dmi size a (record c { cmderr = 0 }) ≡ (
      ok (
          u32 (
            if size == 0
            then bit_and (loaded 0 (u32 (a + 0)) c) 0xff
            else loaded size (u32 (a + 0)) c)),
      r,
    ))
      × (r.sim ≡ (Sim.read size (u32 (a + 0)) c.sim).1)
      × (r.cmderr ≡ 0)
      × (r.ram_offset ≡ c.ram_offset)
      × (r.ram_size ≡ c.ram_size)
unfolding read_sized read_program rv_load run_read gpr_read rv_ebreak run_write load_program
    load_words gpr_write command_out issue wait wait_for poll unless_idle finish_wait loaded
    after_load execute go_on_from run_progbuf transfer_special transfer_gpr post execute_command
    dmi_write dmi_read
read_lem zero a c h =
    ((read_sized core_dmi 0 a (record c { cmderr = 0 })).1, refl, refl, refl, refl, refl)
read_lem (suc zero) a c h =
    ((read_sized core_dmi 1 a (record c { cmderr = 0 })).1, refl, refl, refl, refl, refl)
read_lem (suc (suc zero)) a c h =
    ((read_sized core_dmi 2 a (record c { cmderr = 0 })).1, refl, refl, refl, refl, refl)
read_lem (suc (suc (suc n))) a c h = absurd (omega arith)

same_address : (a : ℕ) → a < 2 ^ 32 → u32 (a + 0) ≡ a
same_address a h = omega arith

pub Clear-lt : (a : ℕ) → Clear a → a < 2 ^ 32
Clear-lt a (inl h) = omega arith
Clear-lt a (inr h) = h.1

loaded-Clear :
    (size a : ℕ) (c : Core)
    → 0x2000_0000 ≤ c.ram_offset
    → c.ram_offset + c.ram_size ≤ 0x4000_0000
    → Clear a
    → loaded size a c ≡ (Sim.read size a c.sim).0
unfolding loaded
loaded-Clear size a c low high clear = rw (not_in_ram (2 ^ size) a c low high clear) refl

-- What a read gives: the low byte alone of a byte.
abbrev fetched : ℕ → ℕ → Core → ℕ
fetched size a c = u32 (if size == 0 then bit_and (loaded 0 a c) 0xff else loaded size a c)

read-Word : (size a : ℕ) (s : Sim) → (Sim.read size a s).0 < 2 ^ 32
unfolding Sim.read
read-Word size a s = ground arith

fetched-Clear :
    (size a : ℕ) (c : Core)
    → 0x2000_0000 ≤ c.ram_offset
    → c.ram_offset + c.ram_size ≤ 0x4000_0000
    → Clear a
    → (size ≡ 0 → a < 0x4000_0000)
    → fetched size a c ≡ (Sim.read size a c.sim).0
fetched-Clear zero a c low high clear small =
    let b = read-byte a c.sim (small refl) in
    rw (loaded-Clear 0 a c low high clear) (omega (arith, bit_and_mask 8 (Sim.read 0 a c.sim).0))
fetched-Clear (suc n) a c low high clear small =
    let b = read-Word (suc n) a c.sim in
    let z : (suc n == 0) ≡ false = ground arith in
    rw (z, loaded-Clear (suc n) a c low high clear) (omega arith)

-- A word written through the debug module reaches the flash and its controller as one store of the
-- core does.
pub write32-Simulates :
    (a v : ℕ) → Clear a → Simulates Shows (Any Shows) (write32 core_dmi a v) (access_write 2 a v)
unfolding access_write
write32-Simulates a v clear = record {
  run = λ c s h.
      let w = write_lem a v c in
      let e : write32 core_dmi a v c ≡ (ok tt, w.0) =
        ap (write32 core_dmi a v) (idle c h.no_error) ∙ w.1 in
      record {
        same = ap (λ (p : Result ⊤ × Core). p.0) e;
        related =
            subst (λ (p : Result ⊤ × Core). Shows p.1 (Sim.write 2 a v s)) (sym e)
              (record {
                flash =
                    w.2
                    ∙ ap₂ (λ x t. Sim.write 2 x v t) (same_address a (Clear-lt a clear)) h.flash;
                no_error = w.3;
                ram_low = omega (arith, w.4, h.ram_low);
                ram_high = omega (arith, w.4, w.5, h.ram_high);
              });
        value = λ x q. tt;
      };
}

-- So does a byte or a word that is read below the controller.
pub read_sized-Simulates :
    (size a : ℕ)
    → size ≤ 2
    → Clear a
    → (size ≡ 0 → a < 0x4000_0000)
    → Simulates Shows (Any Shows) (read_sized core_dmi size a) (access_read size a)
unfolding access_read
read_sized-Simulates size a small clear low = record {
  run = λ c s h.
      let w = read_lem size a c small in
      let e : read_sized core_dmi size a c ≡ (ok (fetched size (u32 (a + 0)) c), w.0) =
        ap (read_sized core_dmi size a) (idle c h.no_error) ∙ w.1 in
      let v : fetched size (u32 (a + 0)) c ≡ (Sim.read size a s).0 =
        ap (λ x. fetched size x c) (same_address a (Clear-lt a clear))
        ∙ fetched-Clear size a c h.ram_low h.ram_high clear low
        ∙ ap (λ t. (Sim.read size a t).0) h.flash in
      record {
        same = ap (λ (p : Result ℕ × Core). p.0) e ∙ ap ok v;
        related =
            subst (λ (p : Result ℕ × Core). Shows p.1 (Sim.read size a s).1) (sym e)
              (record {
                flash =
                    w.2
                    ∙ ap₂ (λ x t. (Sim.read size x t).1) (same_address a (Clear-lt a clear))
                        h.flash;
                no_error = w.3;
                ram_low = omega (arith, w.4, h.ram_low);
                ram_high = omega (arith, w.4, w.5, h.ram_high);
              });
        value = λ x q. tt;
      };
}

-- The program-buffer accesses of the core's debug module are the accesses of its flash.
pub core-IsAlike : IsAlike Shows (of_dmi core_dmi) access
unfolding read32 read_block
core-IsAlike = record {
  reads = λ a clear. read_sized-Simulates 2 a (omega arith) clear (λ z. absurd (omega (arith, z)));
  writes = λ a v clear small. write32-Simulates a v clear;
  blocks = λ a n h.
      read_block_by-Alike Shows (read_sized core_dmi) access_read 0x1000_0000 (omega arith)
        (λ size b s l. read_sized-Simulates size b s (inl (omega arith)) (λ z. omega arith)) n a h;
}
