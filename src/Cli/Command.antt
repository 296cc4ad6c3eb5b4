-- ===== src/Cli/Command.antt =====
-- The commands on the target and the files (src/main.c).
use libopenwch_tools.Prelude.{
  ℕ, Bool, true, false, ◌&&◌, ◌||◌, not, Option, none, some, List, [], ◌∷◌, ◌==◌, if◌then◌else◌,
  length,
}
use libopenwch_tools.Status.{Action, usage, not_implemented, ⊤, pure, fail, ◌>>=◌, ◌>>◌}
use libopenwch_tools.Target.{Chip, chips}
use libopenwch_tools.Target.Name.{by_name}
use libopenwch_tools.Usb.Bus.{Libusb}
use libopenwch_tools.Usb.Wire.{usb_transport}
use libopenwch_tools.Linke.Control.{resume, reset, unbrick}
use libopenwch_tools.Linke.Part.{set_interface}
use libopenwch_tools.Linke.Program.{dmi, read_memory, write_flash}
use libopenwch_tools.Flash.Image.{can_flash}
use libopenwch_tools.Flash.Range.{range_ok}
use libopenwch_tools.Cli.{Options}
use libopenwch_tools.Cli.Tool as Tool
use libopenwch_tools.Cli.Tool.{
  Out, Open, Tool, Files, put, quietly, during, chip_or_detected, named_chip, or_usage, in_world,
  read_file, write_file, count, chip_line,
}
use libopenwch_tools.Cli.Terminal.{terminal_loop}

-- The address that is asked for, or the start of the flash.
unfoldable pub address_of : Options → Chip → ℕ
address_of opts c = if opts.address_given then opts.address else c.flash_base

-- The two tests that `cmd_flash` makes of the part and the image.
unfoldable pub check_part : {S : Type 0} → Chip → Action S ⊤
check_part c = if can_flash c then pure tt else fail not_implemented

unfoldable pub check_image : {S : Type 0} → Options → List ℕ → Chip → Action S ⊤
check_image opts image c =
    if range_ok c (address_of opts c) (length image) then pure tt else fail usage

unfoldable pub for_named : {S : Type 0} → (Chip → Action S ⊤) → Option Chip → Action S ⊤
for_named check none = pure tt
for_named check (some c) = check c

unfoldable pub print_all : {S A : Type 0} → (A → Action (Out S) ⊤) → List A → Action (Out S) ⊤
print_all f [] = pure tt
print_all f (x ∷ xs) = do f x; print_all f xs

-- `cmd_chips`
unfoldable pub show_chips : {S : Type 0} → Action (Out S) ⊤
unfolding print_all
show_chips = do put (count (length chips)); print_all (λ c. put (chip_line c)) chips

module _ {W D H F : Type 0} (U : Libusb W D H) (X : Files W F) where
  -- `cmd_info`
  unfoldable pub info_of : Option (List ℕ) → Options → Action (Tool U) ⊤
  info_of none opts = during U opts.serial (do c ← chip_or_detected U none; put (Tool.target c))
  info_of (some name) opts = do c ← or_usage (by_name (some name)); put (Tool.target c)

  unfoldable pub flash_body : Options → List ℕ → Option Chip → Action (Out (Open U)) ⊤
  flash_body opts image named = do
    c ← chip_or_detected U named
    check_part c
    check_image opts image c
    quietly (write_flash (usb_transport U) c (address_of opts c) image opts.verify)

  -- `cmd_flash`, for the file's path.
  unfoldable pub flash : List ℕ → Options → Action (Tool U) ⊤
  unfolding flash_body
  flash path opts = do
    named ← named_chip opts.chip
    for_named check_part named
    image ← in_world U (read_file X path)
    for_named (check_image opts image) named
    during U opts.serial (flash_body opts image named)

  -- Neither the address nor the size is given.
  abbrev pub whole_flash : Options → Bool
  whole_flash opts = not opts.address_given && not opts.size_given

  abbrev pub is_half_range : Options → Bool
  is_half_range opts =
      not (whole_flash opts) && (not opts.address_given || not opts.size_given || (opts.size == 0))

  unfoldable pub read_body : Options → Option Chip → Action (Out (Open U)) (List ℕ)
  read_body opts named = do
    c ← chip_or_detected U named
    quietly (
        if whole_flash opts
        then read_memory (usb_transport U) (some c) c.flash_base c.flash_size
        else read_memory (usb_transport U) (some c) opts.address opts.size)

  -- `cmd_read`, for the file's path.
  unfoldable pub read : List ℕ → Options → Action (Tool U) ⊤
  unfolding read_body
  read path opts = do
    (if is_half_range opts then fail usage else pure tt)
    named ← named_chip opts.chip
    bytes ← during U opts.serial (read_body opts named)
    in_world U (write_file X path bytes)

  -- `cmd_reset`
  unfoldable pub reset_target : Options → Action (Tool U) ⊤
  reset_target opts = during U opts.serial (quietly (reset (usb_transport U)))

  -- `cmd_unbrick`
  unfoldable pub unbrick_target : Options → Action (Tool U) ⊤
  unbrick_target opts = during U opts.serial (quietly (unbrick (usb_transport U)))

  unfoldable pub resume_if : Bool → Action (Open U) ⊤
  resume_if detected = if detected then resume (usb_transport U) else pure tt

  -- The rounds until the signal, and the writes to stdout that succeed.
  unfoldable pub terminal_body : ℕ → ℕ → Option Chip → Bool → Action (Out (Open U)) ⊤
  unfolding resume_if
  terminal_body rounds writes named detected = do
    c ← chip_or_detected U named
    quietly (set_interface (usb_transport U) c)
    quietly (resume_if detected)
    terminal_loop (dmi (usb_transport U)) rounds writes

  abbrev pub is_none : {A : Type 0} → Option A → Bool
  is_none none = true
  is_none (some a) = false

  -- `cmd_terminal`
  unfoldable pub terminal : ℕ → ℕ → Options → Action (Tool U) ⊤
  unfolding terminal_body
  terminal rounds writes opts = do
    named ← named_chip opts.chip
    during U opts.serial (terminal_body rounds writes named (is_none named))

  unfoldable pub with_file : (List ℕ → Options → Action (Tool U) ⊤) → Options → Action (Tool U) ⊤
  with_file command opts = do path ← or_usage opts.file; command path opts
