-- ===== src/Programmer.antt =====
-- Finding and opening a programmer (src/usb_link.c), over src/usb.c.
pub mod Closing
pub mod Choice
pub mod Opening
pub mod Waiting
pub mod Handles
mod Tests
use libopenwch_tools.Prelude.{
  ℕ, zero, suc, ◌+◌, Bool, true, false, ◌&&◌, ◌||◌, not, Option, none, some, List, [], ◌∷◌, ◌==◌,
  if◌then◌else◌, list_eq,
}
use libopenwch_tools.Status.{
  Action, Result, ok, err, no_device, access, usb, ⊤, pure, fail, ◌>>=◌, ◌>>◌,
}
use libopenwch_tools.Linke.Request.{Link}
use libopenwch_tools.Linke.Control.{attach_transport, detach}
use libopenwch_tools.Usb.{Mode, rv, arm, iap, unknown, Info, mode_eq}
use libopenwch_tools.Usb.Bus.{
  UsbError, Code, done, failed, Libusb, Host, UsbLink, scan, open_link, close_link,
}
use libopenwch_tools.Usb.Wire.{error_is_access, switch_arm_to_rv, eject_iap, usb_transport}

abbrev pub max_links : ℕ
max_links = 8

-- WL_MODE_SWITCH_WAIT_MS / WL_MODE_SWITCH_POLL_MS
abbrev pub mode_switch_polls : ℕ
mode_switch_polls = 50

-- `serial_matches`
unfoldable pub serial_matches : Info → Option (List ℕ) → Bool
serial_matches info none = true
serial_matches info (some []) = true
serial_matches info (some (c ∷ filter)) = list_eq info.serial (c ∷ filter)

-- The programmer can be opened and is one that the user asked for.
unfoldable pub is_candidate : Option (List ℕ) → Info → Bool
unfolding serial_matches
is_candidate filter info = info.accessible && serial_matches info filter

unfoldable pub is_ready : Option (List ℕ) → Mode → Info → Bool
unfolding is_candidate mode_eq
is_ready filter mode info = is_candidate filter info && mode_eq info.mode mode

-- The first element that passes a test.
unfoldable pub first : (Info → Bool) → List Info → Option Info
first test [] = none
first test (info ∷ infos) = let later = first test infos in if test info then some info else later

-- What the loop of `wl_linke_open` keeps: the first programmer in RISC-V mode and whether there is
-- one, and the first in each of the modes that can be left.
pub record Candidates : Type 0 where
  pub info : Option Info
  pub usable : ℕ
  pub arm_candidate : Option Info
  pub iap_candidate : Option Info

abbrev pub or_first : Option Info → Info → Option Info
or_first none info = some info
or_first (some old) info = some old

note : Mode → Info → Candidates → Candidates
note rv info c = record c {
  info = if c.usable == 0 then some info else c.info;
  usable = c.usable + 1;
}
note arm info c = record c { arm_candidate = or_first c.arm_candidate info }
note iap info c = record c { iap_candidate = or_first c.iap_candidate info }
note unknown info c = c

survey : Option (List ℕ) → List Info → Candidates → Candidates
unfolding note is_candidate
survey filter [] c = c
survey filter (info ∷ infos) c =
    survey filter infos (if is_candidate filter info then note info.mode info c else c)

abbrev nothing_seen : Candidates
nothing_seen = record { info = none; usable = 0; arm_candidate = none; iap_candidate = none }

unfoldable pub candidates : Option (List ℕ) → List Info → Candidates
unfolding survey
candidates filter infos = survey filter infos nothing_seen

-- The status for a negative result of an open or a mode switch.
abbrev pub usb_status : {A : Type 0} → UsbError → Result A
usb_status e = if error_is_access e then err access else err usb

module _ {W D H : Type 0} (U : Libusb W D H) where
  found_any : Code (List Info) × Host W → Result (List Info) × Host W
  found_any (failed _, h) = (err usb, h)
  found_any (done [], h) = (err no_device, h)
  found_any (done (info ∷ infos), h) = (ok (info ∷ infos), h)

  -- The start of every search.
  unfoldable pub scanned : Action (Host W) (List Info)
  unfolding found_any
  scanned h = found_any (scan U max_links h)

  poll : Option Info → Action (Host W) Info → Action (Host W) Info
  poll none again h = again h
  poll (some info) again h = (ok info, h)

  -- One round of the loop of `wait_for_mode`, after its scan, and the rounds that follow.
  round :
      Mode
      → Option (List ℕ)
      → Action (Host W) Info
      → Code (List Info) × Host W
      → Result Info × Host W
  unfolding poll
  round mode filter again (failed _, h) = (err usb, h)
  round mode filter again (done infos, h) = poll (first (is_ready filter mode) infos) again h

  -- For the scans that are left.
  unfoldable pub wait_rounds : ℕ → Mode → Option (List ℕ) → Action (Host W) Info
  unfolding round first is_ready
  wait_rounds zero mode filter h = (err no_device, h)
  wait_rounds (suc n) mode filter h =
      round mode filter (wait_rounds n mode filter) (scan U max_links h)

  -- `wait_for_mode`
  unfoldable pub wait_for_mode : Mode → Option (List ℕ) → Action (Host W) Info
  wait_for_mode = wait_rounds mode_switch_polls

  or_access : {A : Type 0} → Option A → Action (Host W) A
  or_access none = fail access
  or_access (some a) = pure a

  -- `wl_programmer_find`
  unfoldable pub programmer_find : Option (List ℕ) → Action (Host W) Info
  unfolding scanned or_access first is_candidate
  programmer_find filter = do infos ← scanned; or_access (first (is_candidate filter) infos)

  -- A mode command, and the wait for the programmer to come back.
  back_in_rv : Option (List ℕ) → Code ⊤ × Host W → Result Info × Host W
  back_in_rv filter (failed e, h) = (usb_status e, h)
  back_in_rv filter (done _, h) = wait_for_mode rv filter h

  in_rv_or : Option Info → Action (Host W) Info → Action (Host W) Info
  in_rv_or none other = other
  in_rv_or (some info) other = pure info

  switched : Option (List ℕ) → Option Info → Action (Host W) Info
  unfolding back_in_rv
  switched filter none h = (err access, h)
  switched filter (some info) h = back_in_rv filter (switch_arm_to_rv U info h)

  ejected : Option (List ℕ) → Option Info → Action (Host W) Info
  unfolding back_in_rv
  ejected filter none h = (err access, h)
  ejected filter (some info) h = back_in_rv filter (eject_iap U info h)

  -- `wl_programmer_switch_rv`. The loop returns at the first programmer in RISC-V mode.
  unfoldable pub programmer_switch_rv : Option (List ℕ) → Action (Host W) Info
  unfolding in_rv_or switched
  programmer_switch_rv filter = do
    infos ← scanned
    in_rv_or (first (is_ready filter rv) infos)
        (switched filter (first (is_ready filter arm) infos))

  -- `wl_programmer_eject_iap`
  unfoldable pub programmer_eject_iap : Option (List ℕ) → Action (Host W) Info
  unfolding in_rv_or ejected
  programmer_eject_iap filter = do
    infos ← scanned
    in_rv_or (first (is_ready filter rv) infos) (ejected filter (first (is_ready filter iap) infos))

  arm_or_iap : Option (List ℕ) → Option Info → Option Info → Action (Host W) Info
  unfolding switched ejected
  arm_or_iap filter (some info) iap_candidate = switched filter (some info)
  arm_or_iap filter none iap_candidate = ejected filter iap_candidate

  -- The programmer that `wl_linke_open` opens: `info` is none exactly where `usable` is 0.
  chosen : Option (List ℕ) → Candidates → Action (Host W) Info
  unfolding in_rv_or arm_or_iap
  chosen filter c = in_rv_or c.info (arm_or_iap filter c.arm_candidate c.iap_candidate)

  -- `link->info` and `link->ctx`
  abbrev pub Opened : Type 0
  Opened = Info × UsbLink H

  pub opened : Info → Code (UsbLink H) × Host W → Result Opened × Host W
  opened info (failed e, h) = (usb_status e, h)
  opened info (done link, h) = (ok (info, link), h)

  -- `wl_linke_open`
  unfoldable pub linke_open : Option (List ℕ) → Action (Host W) Opened
  unfolding chosen opened candidates
  linke_open filter = do
    infos ← scanned
    info ← chosen filter (candidates filter infos)
    λ h. opened info (open_link U info h)

  -- The wl_linke_t that `wl_linke_open` leaves.
  abbrev pub linked : UsbLink H → W → Link (Option (UsbLink H) × W)
  linked link w = attach_transport (usb_transport U) (some link, w)

  -- `wl_linke_close`
  unfoldable pub linke_close : Link (Option (UsbLink H) × W) → W
  unfolding detach
  linke_close l = let l₁ = detach (usb_transport U) l in close_link U l.world.0 l₁.world.1

  -- `wl_linke_close_keep_target`: nothing is sent.
  unfoldable pub linke_close_keep_target : Link (Option (UsbLink H) × W) → W
  linke_close_keep_target l = close_link U l.world.0 l.world.1
