-- ===== src/Cli/Main.antt =====
-- `main`: the choice of a command, and the exit status (src/main.c).
use libopenwch_tools.Prelude.{ℕ, Option, none, some, List, [], if◌then◌else◌, list_eq, codes}
use libopenwch_tools.Status.{
  Result, ok, err, usage, no_device, access, usb, io, target, verify, not_implemented, ⊤,
}
use libopenwch_tools.Target.{Chip}
use libopenwch_tools.Usb.Bus.{Libusb, Host, Code, done, failed, global_init, global_exit}
use libopenwch_tools.Gdb.Server.{Peer, gdb_server_run}
use libopenwch_tools.Cli.{Options, Strtoul, Parsed, help, version, bad, go, start, arguments}
use libopenwch_tools.Cli.Tool.{Tool, Files, Printed, require_chip}
use libopenwch_tools.Cli.Command.{
  show_chips, info_of, flash, read, reset_target, unbrick_target, terminal, with_file,
}
use libopenwch_tools.Cli.Programmers.{programmer_command}
use libopenwch_tools.Cli.Debug as Debug

-- `status_to_exit`
unfoldable pub status_to_exit : Result ⊤ → ℕ
status_to_exit (ok _) = 0
status_to_exit (err usage) = 2
status_to_exit (err no_device) = 3
status_to_exit (err access) = 3
status_to_exit (err usb) = 1
status_to_exit (err io) = 1
status_to_exit (err target) = 1
status_to_exit (err verify) = 1
status_to_exit (err not_implemented) = 1

-- What happens outside while a command runs: the debugger, the signal that ends the terminal, and
-- the writes to stdout that succeed.
pub record Outside : Type 0 where
  pub peer : Peer
  pub rounds : ℕ
  pub writes : ℕ

module _ {W D H F : Type 0} (U : Libusb W D H) (X : Files W F) (strtoul : List ℕ → Strtoul) where
  -- `none` where the debugger's session has not ended.
  abbrev pub Run : Type 0
  Run = Option (Result ⊤ × Tool U)

  unfoldable pub with_output : List Printed → Option (Result ⊤ × Host W) → Run
  with_output out none = none
  with_output out (some (r, h)) = some (r, (h, out))

  unfoldable pub gdbserver : Outside → Options → Option Chip → Tool U → Run
  unfolding with_output
  gdbserver o opts none t = some (err usage, t)
  gdbserver o opts (some c) (h, out) =
      with_output out (gdb_server_run U opts.serial (some c) o.peer h)

  -- The chain of comparisons in `main`.
  unfoldable pub dispatch : Outside → List ℕ → Options → Tool U → Run
  unfolding gdbserver require_chip with_file reset_target unbrick_target
  dispatch o command opts t =
      if list_eq command (codes "chips")
      then some (show_chips t)
      else if list_eq command (codes "info")
      then some (info_of U X opts.chip opts t)
      else if list_eq command (codes "flash")
      then some (with_file U X (flash U X) opts t)
      else if list_eq command (codes "read")
      then some (with_file U X (read U X) opts t)
      else if list_eq command (codes "programmer")
      then some (programmer_command U opts.file opts t)
      else if list_eq command (codes "target")
      then some (Debug.target U strtoul opts t)
      else if list_eq command (codes "reset")
      then some (reset_target U X opts t)
      else if list_eq command (codes "unbrick")
      then some (unbrick_target U X opts t)
      else if list_eq command (codes "gdbserver")
      then gdbserver o opts (require_chip opts.chip) t
      else if list_eq command (codes "terminal")
      then some (terminal U X o.rounds o.writes opts t)
      else some (err usage, t)

  -- The exit status, and the tool after `wl_usb_global_exit`.
  unfoldable pub finished : Run → Option (ℕ × Tool U)
  unfolding status_to_exit
  finished none = none
  finished (some (r, (h, out))) = some (status_to_exit r, (global_exit U h, out))

  unfoldable pub initialised :
      Outside → List ℕ → Options → List Printed → Code ⊤ × Host W → Option (ℕ × Tool U)
  unfolding finished dispatch
  initialised o command opts out (failed e, h) = some (1, (h, out))
  initialised o command opts out (done _, h) = finished (dispatch o command opts (h, out))

  unfoldable pub commanded : Outside → Options → Option (List ℕ) → Host W → Option (ℕ × Tool U)
  unfolding initialised
  commanded o opts none h = some (2, (h, []))
  commanded o opts (some command) h = initialised o command opts [] (global_init U h)

  unfoldable pub parsed : Outside → Parsed → Host W → Option (ℕ × Tool U)
  unfolding commanded
  parsed o help h = some (0, (h, []))
  parsed o version h = some (0, (h, []))
  parsed o bad h = some (2, (h, []))
  parsed o (go s) h = commanded o s.options s.command h

  -- `main`, for the arguments behind the program's name.
  unfoldable pub main : Outside → List (List ℕ) → Host W → Option (ℕ × Tool U)
  unfolding parsed
  main o args h = parsed o (arguments strtoul args start) h
