-- ===== src/Cli/Handles/Commands.antt =====
-- The commands leave as many devices open as there were (src/main.c).
use libopenwch_tools.Prelude.{ℕ, ◌≡◌, Option, none, some, List, Bool}
use libopenwch_tools.Status.{Action, ⊤, usage}
use libopenwch_tools.Status.Preserves.{
  if-Preserves, bind-Preserves, then-Preserves, pure-Preserves, fail-Preserves,
}
use libopenwch_tools.Target.{Chip}
use libopenwch_tools.Target.Name.{by_name}
use libopenwch_tools.Usb.Bus.{Libusb, UsbLink}
use libopenwch_tools.Usb.Bus.Handles.{IsCounted}
use libopenwch_tools.Usb.Wire.{usb_transport}
use libopenwch_tools.Usb.Wire.Handles.{IsHolding}
use libopenwch_tools.Programmer.Closing.{Points, usb-IsKeeping}
use libopenwch_tools.Linke.Preserves.{
  IsKeeping, resume-Preserves, reset-Preserves, unbrick-Preserves, set_interface-Preserves,
  dmi-IsKept, read_memory-Preserves, write_flash-Preserves,
}
use libopenwch_tools.Cli.{Options}
use libopenwch_tools.Cli.Tool.{
  Out, Open, Tool, Files, Printed, put, quietly, or_usage, read_file, write_file, whole,
  read_stream, read_sized, write_stream,
}
use libopenwch_tools.Cli.Tool as Tool
use libopenwch_tools.Cli.Command.{
  check_part, check_image, info_of, flash_body, flash, read_body, read, reset_target,
  unbrick_target, resume_if, terminal_body, terminal, with_file, address_of, whole_flash,
  is_half_range,
}
use libopenwch_tools.Cli.Handles.{
  put-Preserves, quietly-Preserves, or_usage-Preserves, named_chip-Preserves, Stays, Balances,
  during-Balances, in_world-Balances, chip_or_detected-Stays,
}
use libopenwch_tools.Cli.Handles.Bodies.{
  check_part-Preserves, check_image-Preserves, for_named-Preserves, terminal_loop-Preserves,
}
use libopenwch_tools.Cli.Handles.Files.{IsApart, read_file-handles, write_file-handles}

module _ {W D H F : Type 0} {U : Libusb W D H} {X : Files W F} {handles : W → ℕ}
    (counted : IsCounted U handles) (apart : IsApart X handles) where
  -- What a request keeps behind the open programmer.
  abbrev keeps : (link : UsbLink H) (n : ℕ) → IsKeeping (usb_transport U) (Points counted link n)
  keeps = usb-IsKeeping counted

  pub info_of-Balances :
      (o : Option (List ℕ)) (opts : Options) → Balances counted (info_of U X o opts)
  unfolding info_of
  info_of-Balances none opts n =
      during-Balances counted opts.serial _
        (λ link n.
          bind-Preserves (chip_or_detected-Stays counted none link n)
            (λ c. put-Preserves (IsHolding counted link n) (Tool.target c)))
        n
  info_of-Balances (some name) opts n =
      bind-Preserves (or_usage-Preserves (by_name (some name)))
        (λ c. put-Preserves (λ h. handles h.world ≡ n) (Tool.target c))

  flash_body-Stays :
      (opts : Options) (image : List ℕ) (named : Option Chip)
      → Stays counted (flash_body U X opts image named)
  unfolding flash_body
  flash_body-Stays opts image named link n =
      bind-Preserves (chip_or_detected-Stays counted named link n) (λ c.
        then-Preserves (check_part-Preserves c) (
          then-Preserves (check_image-Preserves opts image c) (
            quietly-Preserves
              (write_flash-Preserves (keeps link n) c (address_of opts c) image opts.verify))))

  pub flash-Balances : (path : List ℕ) (opts : Options) → Balances counted (flash U X path opts)
  unfolding flash
  flash-Balances path opts n = bind-Preserves (named_chip-Preserves opts.chip) (λ named.
      then-Preserves (for_named-Preserves check_part named check_part-Preserves) (
        bind-Preserves
          (in_world-Balances counted (read_file X path) (read_file-handles apart path) n)
          (λ image.
            then-Preserves
              (for_named-Preserves (check_image opts image) named
                (check_image-Preserves opts image))
              (during-Balances counted opts.serial _ (flash_body-Stays opts image named) n))))

  read_body-Stays :
      (opts : Options) (named : Option Chip) → Stays counted (read_body U X opts named)
  unfolding read_body
  read_body-Stays opts named link n =
      bind-Preserves (chip_or_detected-Stays counted named link n) (λ c. quietly-Preserves (
        if-Preserves (whole_flash U X opts) (read_memory-Preserves (keeps link n) (some c) _ _)
          (read_memory-Preserves (keeps link n) (some c) _ _)))

  pub read-Balances : (path : List ℕ) (opts : Options) → Balances counted (read U X path opts)
  unfolding read
  read-Balances path opts n =
      then-Preserves
        (if-Preserves (is_half_range U X opts) (fail-Preserves usage) (pure-Preserves tt))
        (bind-Preserves (named_chip-Preserves opts.chip) (λ named.
          bind-Preserves (during-Balances counted opts.serial _ (read_body-Stays opts named) n)
            (λ bytes.
              in_world-Balances counted (write_file X path bytes)
                (write_file-handles apart path bytes) n)))

  pub with_file-Balances :
      (command : List ℕ → Options → Action (Tool U) ⊤) (opts : Options)
      → ((path : List ℕ) → Balances counted (command path opts))
      → Balances counted (with_file U X command opts)
  unfolding with_file
  with_file-Balances command opts k n =
      bind-Preserves (or_usage-Preserves opts.file) (λ path. k path n)

  pub reset_target-Balances : (opts : Options) → Balances counted (reset_target U X opts)
  unfolding reset_target
  reset_target-Balances opts =
      during-Balances counted opts.serial _
        (λ link n. quietly-Preserves (reset-Preserves (keeps link n)))

  pub unbrick_target-Balances : (opts : Options) → Balances counted (unbrick_target U X opts)
  unfolding unbrick_target
  unbrick_target-Balances opts =
      during-Balances counted opts.serial _
        (λ link n. quietly-Preserves (unbrick-Preserves (keeps link n)))

  terminal_body-Stays :
      (rounds writes : ℕ) (named : Option Chip) (detected : Bool)
      → Stays counted (terminal_body U X rounds writes named detected)
  unfolding terminal_body resume_if
  terminal_body-Stays rounds writes named detected link n =
      bind-Preserves (chip_or_detected-Stays counted named link n) (λ c.
        then-Preserves (quietly-Preserves (set_interface-Preserves (keeps link n) c)) (
          then-Preserves
            (quietly-Preserves
              (if-Preserves detected (resume-Preserves (keeps link n)) (pure-Preserves tt)))
            (terminal_loop-Preserves (dmi-IsKept (keeps link n)) rounds writes)))

  pub terminal-Balances :
      (rounds writes : ℕ) (opts : Options) → Balances counted (terminal U X rounds writes opts)
  unfolding terminal
  terminal-Balances rounds writes opts n =
      bind-Preserves (named_chip-Preserves opts.chip) (λ named.
        during-Balances counted opts.serial _ (terminal_body-Stays rounds writes named _) n)
