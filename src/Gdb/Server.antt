-- ===== src/Gdb/Server.antt =====
-- The server from the open of the programmer to its close (src/gdb_server.c).
use libopenwch_tools.Prelude.{
  ℕ, Bool, false, ◌&&◌, not, Option, none, some, List, [], if◌then◌else◌, replicate,
}
use libopenwch_tools.Status.{Action, Result, ok, err, usage, io, ⊤, ignore, ◌>>◌}
use libopenwch_tools.Target.{Chip}
use libopenwch_tools.Usb.Bus.{Libusb, Host, UsbLink}
use libopenwch_tools.Usb.Wire.{usb_transport}
use libopenwch_tools.Programmer.{Opened, linke_open, linked, linke_close}
use libopenwch_tools.Linke.Request.{Link}
use libopenwch_tools.Linke.Control as Control
use libopenwch_tools.Linke.Part.{set_interface}
use libopenwch_tools.Linke.Program.{dmi}
use libopenwch_tools.Gdb.Breakpoint.{Breakpoint}
use libopenwch_tools.Gdb.Run.{halt, wait_halted, enable_ebreak}
use libopenwch_tools.Gdb.Session.{Progress, next, waiting, session}

abbrev pub max_breakpoints : ℕ
max_breakpoints = 8

-- What the network does: whether the server can listen, whether a debugger connects, and what that
-- sends.
pub record Peer : Type 0 where
  pub listens : Bool
  pub accepts : Bool
  pub incoming : List ℕ
  pub sends_left : ℕ
  pub polls : List Bool

abbrev pub free_slot : Breakpoint
free_slot = record { used = false; address = 0; kind = 0; original = [] }

module _ {W D H : Type 0} (U : Libusb W D H) where
  -- The programmer's record while it is open.
  abbrev pub Open : Type 0
  Open = Link (Option (UsbLink H) × W)

  unfoldable pub prepare : Chip → Action Open ⊤
  prepare c = do set_interface (usb_transport U) c; Control.halt (usb_transport U)

  unfoldable pub halt_core : Action Open ⊤
  halt_core = do
    ignore (halt (dmi (usb_transport U)))
    ignore (wait_halted (dmi (usb_transport U)))
    ignore (enable_ebreak (dmi (usb_transport U)))

  -- The connection is closed, and the programmer with it; `none` where the session has not ended.
  unfoldable pub after_session : Option (Progress Open) → Option (Result ⊤ × W)
  after_session none = none
  after_session (some (waiting conn)) = none
  after_session (some (next conn polls)) = some (ok tt, linke_close U conn.link)

  unfoldable pub listening : Chip → Peer → Open → Option (Result ⊤ × W)
  unfolding after_session
  listening c peer l =
      if not (peer.listens && peer.accepts)
      then some (err io, linke_close U l)
      else after_session (
          session (dmi (usb_transport U)) c peer.polls (record {
            link = l;
            quit = false;
            breakpoints = replicate max_breakpoints free_slot;
            incoming = peer.incoming;
            outgoing = [];
            sends_left = peer.sends_left;
          }))

  unfoldable pub prepared : Chip → Peer → Result ⊤ × Open → Option (Result ⊤ × W)
  unfolding listening halt_core
  prepared c peer (err e, l) = some (err e, linke_close U l)
  prepared c peer (ok _, l) = listening c peer (halt_core l).1

  unfoldable pub in_host : Host W → Option (Result ⊤ × W) → Option (Result ⊤ × Host W)
  in_host h none = none
  in_host h (some (r, w)) = some (r, record h { world = w })

  unfoldable pub with_link : Chip → Peer → Result (Opened U) × Host W → Option (Result ⊤ × Host W)
  unfolding prepare prepared in_host
  with_link c peer (err e, h) = some (err e, h)
  with_link c peer (ok (info, link), h) =
      in_host h (prepared c peer (prepare c (linked U link h.world)))

  -- `wl_gdb_server_run`, where `none` says that the core still runs when the peer's reports end.
  unfoldable pub gdb_server_run :
      Option (List ℕ) → Option Chip → Peer → Host W → Option (Result ⊤ × Host W)
  unfolding with_link
  gdb_server_run serial none peer h = some (err usage, h)
  gdb_server_run serial (some c) peer h = with_link c peer (linke_open U serial h)
