-- ===== src/Programmer/Tests.antt =====
-- Runs of a search on a bus made up here.
use libopenwch_tools.Prelude.{
  ℕ, suc, ◌+◌, ◌-◌, ◌≤◌, ◌≡◌, refl, true, Option, none, some, List, [], ◌∷◌, ltb, if◌then◌else◌,
  arith, codes, list_eq, length, zero, All,
}
use libopenwch_tools.Status.{ok, err, no_device}
use libopenwch_tools.Usb.{rv, arm, iap, Info, vid_wch, pid_link_rv, pid_link_arm, classify, mode_eq}
use libopenwch_tools.Usb.Bus.{done, Libusb, Host, UsbLink, scan, open_link, read_string}
use libopenwch_tools.Usb.Bus.Handles.{IsCounted}
use libopenwch_tools.Usb.Bus.Found.{IsProgrammer, scan-IsProgrammer}
use libopenwch_tools.Usb.Wire.{switch_arm_to_rv, send_boot_command}
use libopenwch_tools.Usb.Wire.Handles.{sent}
use libopenwch_tools.Programmer.{
  first, is_ready, is_candidate, serial_matches, candidates, linke_open, linked, linke_close,
  scanned, wait_rounds, opened, wait_for_mode, programmer_switch_rv, programmer_eject_iap,
}
use libopenwch_tools.Programmer.Choice.{candidates-first, count, IsReady}
use libopenwch_tools.Programmer.Opening.{linke_open-first, linke_open-IsReady}
use libopenwch_tools.Programmer.Waiting.{
  Misses, here, missed, wait_for_mode-ready, wait_for_mode-gives_up,
}
use libopenwch_tools.Programmer.Handles.{linke_open-linke_close}

-- The number of open devices, and how often the bus was listed.
abbrev World : Type 0
World = ℕ × ℕ

-- A programmer that shows up in RISC-V mode from the given listing on, and in ARM mode before.
abbrev late : ℕ → Libusb World ℕ ℕ
late from = record {
  init = λ w. (done tt, w);
  exit = λ w. w;
  get_device_list =
      λ w. (done ((if ltb w.1 from then pid_link_arm else pid_link_rv) ∷ []), (w.0, w.1 + 1));
  get_device_descriptor = λ d.
      some (record { id_vendor = vid_wch; id_product = d; i_serial_number = 3; i_product = 0 });
  get_bus_number = λ d. 1;
  get_device_address = λ d. d - pid_link_rv;
  open_device = λ d w. (done d, (suc w.0, w.1));
  close = λ a w. (w.0 - 1, w.1);
  get_string_descriptor = λ a i n w. (some (codes "0123"), w);
  set_auto_detach = λ a w. w;
  claim_interface = λ a i w. (done tt, w);
  release_interface = λ a i w. w;
  transfer_out = λ a e bytes t w. (done (length bytes), w);
  transfer_in = λ a e n t w. (done [], w);
}

late-IsCounted : (from : ℕ) → IsCounted (late from) (λ w. w.0)
late-IsCounted from = record {
  opens = λ d w. refl;
  closes = λ a w. refl;
  lists = λ w. refl;
  reads = λ a i n w. refl;
  detaches = λ a w. refl;
  claims = λ a i w. refl;
  releases = λ a i w. refl;
  sends = λ a e bytes t w. refl;
  receives = λ a e n t w. refl;
}

abbrev host : ℕ → Host World
host lists = record { world = (0, lists); context = true }

abbrev seen : ℕ → Info
seen pid = record {
  mode = classify vid_wch pid;
  vid = vid_wch;
  pid = pid;
  bus = 1;
  address = pid - pid_link_rv;
  accessible = true;
  serial = codes "0123";
  product = [];
}

abbrev asked : Option (List ℕ)
asked = some (codes "0123")

scanned_0 : scan (late 2) 8 (host 0) ≡ (done (seen pid_link_arm ∷ []), host 1)
unfolding scan read_string mode_eq classify
scanned_0 = refl

scanned_1 : scan (late 2) 8 (host 1) ≡ (done (seen pid_link_arm ∷ []), host 2)
unfolding scan read_string mode_eq classify
scanned_1 = refl

scanned_2 : scan (late 2) 8 (host 2) ≡ (done (seen pid_link_rv ∷ []), host 3)
unfolding scan read_string mode_eq classify
scanned_2 = refl

scan-IsProgrammer_example :
    (length (seen pid_link_arm ∷ []) ≤ 8) × All IsProgrammer (seen pid_link_arm ∷ [])
scan-IsProgrammer_example =
    scan-IsProgrammer (late 2) 8 (host 0) (host 1) (seen pid_link_arm ∷ []) scanned_0

rv_ready : first (is_ready asked rv) (seen pid_link_rv ∷ []) ≡ some (seen pid_link_rv)
unfolding first is_ready is_candidate serial_matches classify mode_eq list_eq
rv_ready = refl

arm_not_ready : first (is_ready asked rv) (seen pid_link_arm ∷ []) ≡ none
unfolding first is_ready is_candidate serial_matches classify mode_eq list_eq
arm_not_ready = refl

candidates-first_example : candidates asked (seen pid_link_arm ∷ seen pid_link_rv ∷ []) ≡ record {
  info = first (is_ready asked rv) (seen pid_link_arm ∷ seen pid_link_rv ∷ []);
  usable = count (is_ready asked rv) (seen pid_link_arm ∷ seen pid_link_rv ∷ []);
  arm_candidate = first (is_ready asked arm) (seen pid_link_arm ∷ seen pid_link_rv ∷ []);
  iap_candidate = first (is_ready asked iap) (seen pid_link_arm ∷ seen pid_link_rv ∷ []);
}
candidates-first_example = candidates-first asked (seen pid_link_arm ∷ seen pid_link_rv ∷ [])

wait_for_mode-ready_example :
    wait_for_mode (late 2) rv asked (host 0) ≡ (ok (seen pid_link_rv), host 3)
wait_for_mode-ready_example =
    wait_for_mode-ready (late 2) rv asked 2 (host 0) (host 2) (host 3) (seen pid_link_rv ∷ [])
      (seen pid_link_rv) (omega arith)
      (missed (seen pid_link_arm ∷ []) scanned_0 arm_not_ready
        (missed (seen pid_link_arm ∷ []) scanned_1 arm_not_ready here))
      scanned_2 rv_ready

-- A bus without any programmer.
abbrev empty : Libusb World ℕ ℕ
empty = record (late 0) { get_device_list = λ w. (done [], w) }

empty-Misses : (n : ℕ) → Misses empty rv asked n (host 0) (host 0)
unfolding scan first
empty-Misses zero = here
empty-Misses (suc n) = missed [] refl refl (empty-Misses n)

wait_for_mode-gives_up_example : wait_for_mode empty rv asked (host 0) ≡ (err no_device, host 0)
wait_for_mode-gives_up_example =
    wait_for_mode-gives_up empty rv asked (host 0) (host 0) (empty-Misses 50)

linke_open-first_example :
    (linke_open (late 2) asked (host 2)
      ≡ opened (late 2) (seen pid_link_rv) (open_link (late 2) (seen pid_link_rv) (host 3)))
    × (programmer_switch_rv (late 2) asked (host 2) ≡ (ok (seen pid_link_rv), host 3))
    × (programmer_eject_iap (late 2) asked (host 2) ≡ (ok (seen pid_link_rv), host 3))
linke_open-first_example =
    linke_open-first (late 2) asked (host 2) (host 3) (seen pid_link_rv ∷ []) (seen pid_link_rv)
      scanned_2 rv_ready

abbrev held_link : UsbLink ℕ
held_link = record { handle = pid_link_rv; claimed = true }

-- Found in ARM mode, switched, and opened when it is back.
abbrev after_open : Host World
after_open = record { world = (1, 5); context = true }

opened_late : linke_open (late 3) asked (host 0) ≡ (ok (seen pid_link_rv, held_link), after_open)
unfolding linke_open open_link scan read_string mode_eq classify scanned list_eq switch_arm_to_rv
    send_boot_command wait_for_mode wait_rounds
opened_late = refl

linke_open-IsReady_example : IsReady asked rv (seen pid_link_rv)
linke_open-IsReady_example =
    linke_open-IsReady (late 3) asked (host 0) after_open (seen pid_link_rv) held_link opened_late

linke_open-linke_close_example :
    (linke_close (late 3) (sent (late 3) ((0x81 ∷ []) ∷ []) (linked (late 3) held_link (1, 5)))).0
    ≡ 0
linke_open-linke_close_example =
    linke_open-linke_close (late-IsCounted 3) asked (host 0) after_open (seen pid_link_rv) held_link
      ((0x81 ∷ []) ∷ []) opened_late
