-- ===== src/Cli/Debug.antt =====
-- The subcommands of `target` (src/main.c).
use libopenwch_tools.Prelude.{
  ℕ, zero, suc, ◌+◌, Option, none, List, [], ◌∷◌, if◌then◌else◌, list_eq, codes,
}
use libopenwch_tools.Status.{Action, usage, ⊤, pure, fail, ◌>>=◌, ◌>>◌}
use libopenwch_tools.Target.{Chip}
use libopenwch_tools.Usb.Bus.{Libusb}
use libopenwch_tools.Usb.Wire.{usb_transport}
use libopenwch_tools.Linke.Control.{halt, resume, reset}
use libopenwch_tools.Linke.Program.{dmi}
use libopenwch_tools.Dm.Command.{Dmi, pc_read, gpr_read}
use libopenwch_tools.Dm.Memory.{read32, write32}
use libopenwch_tools.Cli.{Options, Strtoul, parse_u32}
use libopenwch_tools.Cli.Tool.{
  Out, Tool, put, quietly, during, keeping, debugging, or_usage, pc_line, gpr_line, word_read,
  word_written,
}

-- The numbers among the extra arguments, which both have to be read before anything is opened.
unfoldable pub first_number : (List ℕ → Strtoul) → List (List ℕ) → Option ℕ
first_number strtoul [] = none
first_number strtoul (text ∷ more) = parse_u32 strtoul text

unfoldable pub second_number : (List ℕ → Strtoul) → List (List ℕ) → Option ℕ
unfolding first_number
second_number strtoul [] = none
second_number strtoul (text ∷ more) = first_number strtoul more

-- 16 registers for the RV32E core.
unfoldable pub gpr_count : Chip → ℕ
gpr_count c = if list_eq c.family (codes "ch32v0") then 16 else 32

module _ {S : Type 0} (D : Dmi S) where
  -- The loop over the registers, for those that are left.
  unfoldable pub print_gprs : ℕ → ℕ → Action (Out S) ⊤
  print_gprs zero reg = pure tt
  print_gprs (suc n) reg = do
    value ← quietly (gpr_read D reg)
    put (gpr_line reg value)
    print_gprs n (reg + 1)

  unfoldable pub print_regs : Chip → Action (Out S) ⊤
  unfolding print_gprs gpr_count
  print_regs c = do pc ← quietly (pc_read D); put (pc_line pc); print_gprs (gpr_count c) 0

module _ {W E H : Type 0} (U : Libusb W E H) (strtoul : List ℕ → Strtoul) where
  unfoldable pub target_halt : Options → Action (Tool U) ⊤
  target_halt opts = keeping U opts.serial (quietly (halt (usb_transport U)))

  unfoldable pub target_resume : Options → Action (Tool U) ⊤
  target_resume opts = during U opts.serial (quietly (resume (usb_transport U)))

  unfoldable pub target_reset : Options → Action (Tool U) ⊤
  target_reset opts = during U opts.serial (quietly (reset (usb_transport U)))

  unfoldable pub target_pc : Options → Action (Tool U) ⊤
  target_pc opts = do
    pc ← debugging U opts (λ c. quietly (pc_read (dmi (usb_transport U))))
    put (pc_line pc)

  unfoldable pub target_regs : Options → Action (Tool U) ⊤
  unfolding print_regs
  target_regs opts = debugging U opts (print_regs (dmi (usb_transport U)))

  unfoldable pub target_read32 : Options → Action (Tool U) ⊤
  unfolding first_number
  target_read32 opts = do
    address ← or_usage (first_number strtoul opts.extra)
    value ← debugging U opts (λ c. quietly (read32 (dmi (usb_transport U)) address))
    put (word_read address value)

  unfoldable pub target_write32 : Options → Action (Tool U) ⊤
  unfolding first_number second_number
  target_write32 opts = do
    address ← or_usage (first_number strtoul opts.extra)
    value ← or_usage (second_number strtoul opts.extra)
    debugging U opts (λ c. quietly (write32 (dmi (usb_transport U)) address value))
    put (word_written address value)

  unfoldable pub subcommand : List ℕ → Options → Action (Tool U) ⊤
  unfolding target_halt target_resume target_reset target_pc target_regs target_read32
      target_write32
  subcommand sub opts =
      if list_eq sub (codes "halt")
      then target_halt opts
      else if list_eq sub (codes "resume")
      then target_resume opts
      else if list_eq sub (codes "reset")
      then target_reset opts
      else if list_eq sub (codes "pc")
      then target_pc opts
      else if list_eq sub (codes "regs")
      then target_regs opts
      else if list_eq sub (codes "read32")
      then target_read32 opts
      else if list_eq sub (codes "write32")
      then target_write32 opts
      else fail usage

  -- `cmd_target`
  unfoldable pub target : Options → Action (Tool U) ⊤
  unfolding subcommand
  target opts = do sub ← or_usage opts.file; subcommand sub opts
