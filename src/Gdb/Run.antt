-- ===== src/Gdb/Run.antt =====
-- Halting, resuming and stepping the core (src/gdb_server.c).
use libopenwch_tools.Prelude.{ℕ, zero, suc, Bool, true, false, ◌==◌, bit_and, bit_or, bit_not32}
use libopenwch_tools.Status.{Action, Result, ok, err, target, ⊤, ignore, ◌>>=◌, ◌>>◌}
use libopenwch_tools.Dm.Command.{Dmi, dcsr_read, dcsr_write}

abbrev pub dmcontrol : ℕ
dmcontrol = 0x10

abbrev pub dmstatus : ℕ
dmstatus = 0x11

abbrev pub dmcontrol_halt : ℕ
dmcontrol_halt = 0x8000_0001

abbrev pub dmcontrol_resume : ℕ
dmcontrol_resume = 0x4000_0001

abbrev pub dmstatus_anyrunning : ℕ
dmstatus_anyrunning = 0x400

abbrev pub dcsr_step : ℕ
dcsr_step = 0x4

abbrev pub dcsr_ebreak_bits : ℕ
dcsr_ebreak_bits = 0xb600

-- The bound on the polls of `gdb_dm_wait_halted`.
abbrev pub halt_polls : ℕ
halt_polls = 2000

module _ {S : Type 0} (D : Dmi S) where
  -- `gdb_dm_halt`
  unfoldable pub halt : Action S ⊤
  halt = D.write dmcontrol dmcontrol_halt

  -- A register that cannot be read counts as that of a halted core.
  unfoldable pub halted_of : Result ℕ × S → Bool × S
  halted_of (err _, s) = (true, s)
  halted_of (ok status, s) = (bit_and status dmstatus_anyrunning == 0, s)

  -- `gdb_dm_is_halted`
  unfoldable pub is_halted : S → Bool × S
  unfolding halted_of
  is_halted s = halted_of (D.read dmstatus s)

  unfoldable pub unless_halted : Action S ⊤ → Bool × S → Result ⊤ × S
  unless_halted again (true, s) = (ok tt, s)
  unless_halted again (false, s) = again s

  -- The loop of `gdb_dm_wait_halted`, with the polls that are left.
  unfoldable pub wait_halted_for : ℕ → Action S ⊤
  unfolding unless_halted
  wait_halted_for zero s = (err target, s)
  wait_halted_for (suc n) s = unless_halted (wait_halted_for n) (is_halted s)

  -- `gdb_dm_wait_halted`
  unfoldable pub wait_halted : Action S ⊤
  wait_halted = wait_halted_for halt_polls

  -- `gdb_dm_enable_ebreak`
  unfoldable pub enable_ebreak : Action S ⊤
  enable_ebreak = do value ← dcsr_read D; dcsr_write D (bit_or value dcsr_ebreak_bits)

  -- `gdb_resume`
  unfoldable pub resume : Action S ⊤
  resume = do ignore enable_ebreak; D.write dmcontrol dmcontrol_resume

  -- The clean-up of `gdb_step`: the status stays that of the step.
  unfoldable pub clear_step : ℕ → Result ⊤ × S → Result ⊤ × S
  clear_step value (r, s) = (r, (dcsr_write D (bit_and value (bit_not32 dcsr_step)) s).1)

  -- `gdb_step` from the value to be written on.
  unfoldable pub step_with : ℕ → Action S ⊤
  unfolding clear_step
  step_with value = do dcsr_write D value; λ s. clear_step value ((do resume; wait_halted) s)

  -- `gdb_step`
  unfoldable pub step : Action S ⊤
  unfolding step_with
  step = do value ← dcsr_read D; step_with (bit_or value (bit_or dcsr_ebreak_bits dcsr_step))
