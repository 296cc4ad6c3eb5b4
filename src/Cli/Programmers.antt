-- ===== src/Cli/Programmers.antt =====
-- The subcommands of `programmer` (src/main.c).
use libopenwch_tools.Prelude.{
  ℕ, ◌+◌, Option, none, some, List, [], ◌∷◌, if◌then◌else◌, length, list_eq, codes,
}
use libopenwch_tools.Status.{Action, Result, err, usage, no_device, usb, ⊤, pure, fail, ◌>>=◌, ◌>>◌}
use libopenwch_tools.Usb.{Info}
use libopenwch_tools.Usb.Bus.{
  Libusb, Host, UsbLink, Code, done, failed, scan, open_link, close_link,
}
use libopenwch_tools.Usb.Wire.{usb_transport}
use libopenwch_tools.Programmer.{
  linked, programmer_find, programmer_switch_rv, programmer_eject_iap,
}
use libopenwch_tools.Linke.Control.{get_version}
use libopenwch_tools.Cli.{Options}
use libopenwch_tools.Cli.Tool as Tool
use libopenwch_tools.Cli.Tool.{
  Out, Open, Tool, Printed, put, quietly, count, entry, programmer, cannot_open,
}

abbrev pub max_programmers : ℕ
max_programmers = 16

-- The numbered programmers of `cmd_programmer_list`.
unfoldable pub print_list : {S : Type 0} → ℕ → List Info → Action (Out S) ⊤
print_list i [] = pure tt
print_list i (info ∷ infos) = do
  put (entry i info.accessible)
  put (programmer info)
  print_list (i + 1) infos

unfoldable pub print_found : {S : Type 0} → List Info → Action (Out S) ⊤
unfolding print_list
print_found [] = fail no_device
print_found (info ∷ infos) = do put (count (length (info ∷ infos))); print_list 1 (info ∷ infos)

module _ {W D H : Type 0} (U : Libusb W D H) where
  unfoldable pub print_version_over : Host W → Open U → Action (Tool U) ⊤
  print_version_over h l (h₁, out) =
      let (r, l₁) = get_version (usb_transport U) 64 l in
      put (Tool.version r) (record h { world = close_link U l₁.world.0 l₁.world.1 }, out)

  unfoldable pub print_version_of : Code (UsbLink H) × Host W → Action (Tool U) ⊤
  unfolding print_version_over
  print_version_of (failed e, h) (h₀, out) = put cannot_open (h, out)
  print_version_of (done link, h) t = print_version_over h (linked U link h.world) t

  -- `print_programmer_version`
  unfoldable pub print_version : Info → Action (Tool U) ⊤
  unfolding print_version_of
  print_version info (h, out) = print_version_of (open_link U info h) (h, out)

  unfoldable pub programmer_info : Options → Action (Tool U) ⊤
  unfolding print_version
  programmer_info opts = do
    info ← quietly (programmer_find U opts.serial)
    put (programmer info)
    print_version info

  unfoldable pub list_scanned : Code (List Info) × Host W → List Printed → Result ⊤ × Tool U
  unfolding print_found
  list_scanned (failed e, h) out = (err usb, (h, out))
  list_scanned (done infos, h) out = print_found infos (h, out)

  unfoldable pub programmer_list : Action (Tool U) ⊤
  unfolding list_scanned
  programmer_list (h, out) = list_scanned (scan U max_programmers h) out

  unfoldable pub programmer_rv : Options → Action (Tool U) ⊤
  programmer_rv opts = do info ← quietly (programmer_switch_rv U opts.serial); put (programmer info)

  unfoldable pub programmer_iap : Options → Action (Tool U) ⊤
  programmer_iap opts = do
    info ← quietly (programmer_eject_iap U opts.serial)
    put (programmer info)

  unfoldable pub programmer_sub : List ℕ → Options → Action (Tool U) ⊤
  unfolding programmer_info programmer_list programmer_rv programmer_iap
  programmer_sub sub opts =
      if list_eq sub (codes "info")
      then programmer_info opts
      else if list_eq sub (codes "list")
      then programmer_list
      else if list_eq sub (codes "rv")
      then programmer_rv opts
      else if list_eq sub (codes "iap")
      then programmer_iap opts
      else fail usage

  -- `cmd_programmer`, by the subcommand if there is one.
  unfoldable pub programmer_command : Option (List ℕ) → Options → Action (Tool U) ⊤
  unfolding programmer_sub
  programmer_command none opts = programmer_sub (codes "info") opts
  programmer_command (some sub) opts = programmer_sub sub opts
