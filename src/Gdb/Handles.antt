-- ===== src/Gdb/Handles.antt =====
-- The server leaves as many devices open as there were (src/gdb_server.c).
use libopenwch_tools.Prelude.{
  ℕ, ◌-◌, ◌&&◌, not, ◌≡◌, refl, sym, ◌∙◌, Option, none, some, List, [], arith, true, false,
  if◌then◌else◌, Bool, replicate,
}
use mathlib.Core.Path.{subst}
use libopenwch_tools.Status.{Result, ok, err, ⊤}
use libopenwch_tools.Status.Preserves.{Preserves, then-Preserves, ignore-Preserves}
use libopenwch_tools.Target.{Chip}
use libopenwch_tools.Usb.Bus.{Libusb, Host, UsbLink}
use libopenwch_tools.Usb.Bus.Handles.{IsCounted}
use libopenwch_tools.Usb.Wire.Handles.{IsHolding}
use libopenwch_tools.Programmer.{Opened, linke_open, linked}
use libopenwch_tools.Programmer.Handles.{Holds, linke_open-Holds}
use libopenwch_tools.Programmer.Closing.{usb-IsKeeping, linke_close-handles}
use libopenwch_tools.Linke.Control.{attach_transport}
use libopenwch_tools.Linke.Preserves.{halt-Preserves, set_interface-Preserves, dmi-IsKept}
use libopenwch_tools.Gdb.Preserves as Target
use libopenwch_tools.Gdb.Session.{Progress, next, waiting}
use libopenwch_tools.Gdb.Session.Ending.{Ends, session-Ends, link_of}
use libopenwch_tools.Gdb.Connection.{Conn}
use libopenwch_tools.Gdb.Server.{
  Open, Peer, max_breakpoints, free_slot, prepare, halt_core, after_session, listening, prepared,
  in_host, with_link, gdb_server_run,
}

module _ {W D H : Type 0} {U : Libusb W D H} {handles : W → ℕ} (counted : IsCounted U handles) where
  -- So many devices are open where the server has ended.
  abbrev Leaves : Option (Result ⊤ × W) → ℕ → Type 0
  Leaves none n = Unit {0}
  Leaves (some (r, w)) n = handles w ≡ n

  prepare-Preserves :
      (c : Chip) (link : UsbLink H) (n : ℕ) → Preserves (IsHolding counted link n) (prepare U c)
  unfolding prepare
  prepare-Preserves c link n =
      let kept = usb-IsKeeping counted link n in
      then-Preserves (set_interface-Preserves kept c) (halt-Preserves kept)

  halt_core-Preserves :
      (link : UsbLink H) (n : ℕ) → Preserves (IsHolding counted link n) (halt_core U)
  unfolding halt_core
  halt_core-Preserves link n =
      let kept = dmi-IsKept (usb-IsKeeping counted link n) in
      then-Preserves (ignore-Preserves (Target.halt-Preserves kept)) (
        then-Preserves (ignore-Preserves (Target.wait_halted-Preserves kept))
          (ignore-Preserves (Target.enable_ebreak-Preserves kept)))

  after_session-Leaves :
      (link : UsbLink H) (n : ℕ) (p : Progress (Open U))
      → IsHolding counted link n (link_of p)
      → Leaves (after_session U (some p)) (n - 1)
  unfolding after_session
  after_session-Leaves link n (waiting b) s = tt
  after_session-Leaves link n (next b polls) s = linke_close-handles counted link n b.link s

  if-Leaves :
      (t : Bool) (o p : Option (Result ⊤ × W)) (n : ℕ)
      → Leaves o n
      → Leaves p n
      → Leaves (if t then o else p) n
  if-Leaves true o p n j k = j
  if-Leaves false o p n j k = k

  listening-Leaves :
      (c : Chip) (peer : Peer) (link : UsbLink H) (n : ℕ) (l : Open U)
      → IsHolding counted link n l
      → Leaves (listening U c peer l) (n - 1)
  unfolding listening Ends
  listening-Leaves c peer link n l s =
      let conn : Conn (Open U) = record {
        link = l;
        quit = false;
        breakpoints = replicate max_breakpoints free_slot;
        incoming = peer.incoming;
        outgoing = [];
        sends_left = peer.sends_left;
      } in
      let e =
        session-Ends (IsHolding counted link n) (dmi-IsKept (usb-IsKeeping counted link n)) c
          peer.polls conn in
      if-Leaves (not (peer.listens && peer.accepts)) _ _ (n - 1)
        (linke_close-handles counted link n l s)
        (subst (λ o. Leaves (after_session U o) (n - 1)) (sym e.1)
          (after_session-Leaves link n e.0 (e.3 s)))

  prepared-Leaves :
      (c : Chip) (peer : Peer) (link : UsbLink H) (n : ℕ) (p : Result ⊤ × Open U)
      → IsHolding counted link n p.1
      → Leaves (prepared U c peer p) (n - 1)
  unfolding prepared
  prepared-Leaves c peer link n (err e, l) s = linke_close-handles counted link n l s
  prepared-Leaves c peer link n (ok x, l) s =
      listening-Leaves c peer link n (halt_core U l).1 ((halt_core-Preserves link n).run l s)

  -- The same of the host.
  abbrev pub LeavesHost : Option (Result ⊤ × Host W) → ℕ → Type 0
  LeavesHost none n = Unit {0}
  LeavesHost (some (r, h)) n = handles h.world ≡ n

  in_host-Leaves :
      (h : Host W) (o : Option (Result ⊤ × W)) (m n : ℕ)
      → m ≡ n
      → Leaves o m
      → LeavesHost (in_host U h o) n
  unfolding in_host
  in_host-Leaves h none m n e k = tt
  in_host-Leaves h (some (r, w)) m n e k = k ∙ e

  with_link-Leaves :
      (c : Chip) (peer : Peer) (p : Result (Opened U) × Host W) (n : ℕ)
      → Holds counted p n
      → LeavesHost (with_link U c peer p) n
  unfolding with_link attach_transport
  with_link-Leaves c peer (err e, h) n held = held
  with_link-Leaves c peer (ok (info, link), h) n held =
      let m = handles h.world in
      in_host-Leaves h _ (m - 1) n (omega (arith, held)) (
        prepared-Leaves c peer link m _
          ((prepare-Preserves c link m).run (linked U link h.world) (refl, refl)))

  pub gdb_server_run-Leaves :
      (serial : Option (List ℕ)) (o : Option Chip) (peer : Peer) (h : Host W)
      → LeavesHost (gdb_server_run U serial o peer h) (handles h.world)
  unfolding gdb_server_run
  gdb_server_run-Leaves serial none peer h = refl
  gdb_server_run-Leaves serial (some c) peer h =
      with_link-Leaves c peer (linke_open U serial h) (handles h.world)
        (linke_open-Holds counted serial h)
