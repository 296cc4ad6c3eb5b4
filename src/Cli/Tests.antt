-- ===== src/Cli/Tests.antt =====
-- Runs of the command line, on a bus without programmers.
use libopenwch_tools.Prelude.{
  ℕ, suc, ◌+◌, ◌-◌, ◌*◌, ◌≡◌, refl, true, false, ◌&&◌, Option, none, some, List, [], ◌∷◌, leb,
  if◌then◌else◌, arith, codes, list_eq, length,
}
use libopenwch_tools.Status.{ok}
use libopenwch_tools.Usb.Bus.{
  Libusb, Host, done, scan, global_init, global_exit, open_link, close_link,
}
use libopenwch_tools.Usb.{pid_link_rv, vid_wch, mode_eq, classify}
use libopenwch_tools.Usb.Wire.{usb_transport, transport_command}
use libopenwch_tools.Linke.Request.{send_control, command}
use libopenwch_tools.Linke.Control.{reset, attach_transport}
use libopenwch_tools.Usb.Bus.Handles.{IsCounted}
use libopenwch_tools.Cli.Handles.Files.{IsApart}
use libopenwch_tools.Cli.Handles.Main.{IsNeutral, main-handles}
use libopenwch_tools.Cli.{Strtoul, Line, go, start, arguments, parse_u32}
use libopenwch_tools.Cli.Arguments.{InRange, arguments-InRange}
use libopenwch_tools.Cli.Tool.{Files, Tool, during}
use libopenwch_tools.Programmer.{linke_open, linke_close, scanned}
use libopenwch_tools.Cli.Main.{Outside, main, status_to_exit}
use libopenwch_tools.Cli.Terminal.{shown, read_packet}
use libopenwch_tools.Cli.Terminal.Packets.{registers, ch32fun, sent, read_packet-sent}

-- Decimal numbers only.
number : List ℕ → ℕ → Strtoul
number [] n = record { value = n; end_ = []; errno = false }
number (c ∷ cs) n =
    let later = number cs (10 * n + (c - b'0')) in
    if leb b'0' c && leb c b'9' then later else record { value = n; end_ = c ∷ cs; errno = false }

abbrev decimal : List ℕ → Strtoul
decimal text = number text 0

abbrev debug_line : List (List ℕ)
debug_line =
    codes "target"
    ∷ codes "read32"
    ∷ codes "134217728"
    ∷ codes "-p"
    ∷ codes "4444"
    ∷ codes "-c"
    ∷ codes "CH32V003"
    ∷ []

abbrev debug_parsed : Line
debug_parsed = record start {
  options = record (start.options) {
    chip = some (codes "CH32V003");
    file = some (codes "read32");
    extra = codes "134217728" ∷ [];
    port = 4444;
  };
  command = some (codes "target");
}

debug_line_parsed : arguments decimal debug_line start ≡ go debug_parsed
unfolding arguments parse_u32 list_eq number
debug_line_parsed = refl

arguments-InRange_example : InRange debug_parsed
arguments-InRange_example = arguments-InRange decimal debug_line debug_parsed debug_line_parsed

read_packet-sent_example :
    read_packet registers (sent ch32fun (codes "hello"))
    ≡ (ok (shown (codes "hello")), record { word0 = 0; word1 = 0 })
read_packet-sent_example =
    read_packet-sent ch32fun (codes "hello")
      (omega arith, (omega arith, (omega arith, (omega arith, (omega arith, tt))))) (omega arith)
      (omega arith)

-- No programmer, and no file.
abbrev bus : Libusb ℕ ℕ ℕ
bus = record {
  init = λ w. (done tt, suc w);
  exit = λ w. w - 1;
  get_device_list = λ w. (done [], w);
  get_device_descriptor = λ d. none;
  get_bus_number = λ d. 0;
  get_device_address = λ d. 0;
  open_device = λ d w. (done d, w);
  close = λ a w. w;
  get_string_descriptor = λ a i n w. (none, w);
  set_auto_detach = λ a w. w;
  claim_interface = λ a i w. (done tt, w);
  release_interface = λ a i w. w;
  transfer_out = λ a e bytes t w. (done 0, w);
  transfer_in = λ a e n t w. (done [], w);
}

abbrev no_files : Files ℕ ℕ
no_files = record {
  stat = λ path w. (none, w);
  open_read = λ path w. (none, w);
  open_write = λ path w. (none, w);
  fread = λ f n w. ([], w);
  fwrite = λ f bytes w. (0, w);
  fclose = λ f w. (true, w);
}

abbrev outside : Outside
outside = record {
  peer = record { listens = true; accepts = true; incoming = []; sends_left = 0; polls = [] };
  rounds = 0;
  writes = 0;
}

abbrev off : Host ℕ
off = record { world = 0; context = false }

abbrev exits : List (List ℕ) → Option (ℕ × Tool bus)
exits args = main bus no_files decimal outside args off

nothing_to_do : exits [] ≡ some (2, (off, []))
unfolding main arguments
nothing_to_do = refl

no_programmer : exits (codes "reset" ∷ []) ≡ some (3, (off, []))
unfolding main arguments list_eq global_init global_exit status_to_exit scan number during
    linke_open scanned
no_programmer = refl

-- A bus with one programmer in RISC-V mode: the number of open devices, and of the transfers sent.
abbrev one_bus : Libusb (ℕ × ℕ) ℕ ℕ
one_bus = record {
  init = λ w. (done tt, w);
  exit = λ w. w;
  get_device_list = λ w. (done (pid_link_rv ∷ []), w);
  get_device_descriptor = λ d.
      some (record { id_vendor = vid_wch; id_product = d; i_serial_number = 3; i_product = 0 });
  get_bus_number = λ d. 1;
  get_device_address = λ d. 4;
  open_device = λ d w. (done d, (suc w.0, w.1));
  close = λ a w. (w.0 - 1, w.1);
  get_string_descriptor = λ a i n w. (some (codes "0123"), w);
  set_auto_detach = λ a w. w;
  claim_interface = λ a i w. (done tt, w);
  release_interface = λ a i w. w;
  transfer_out = λ a e bytes t w. (done (length bytes), (w.0, w.1 + 1));
  transfer_in = λ a e n t w. (done (0x82 ∷ []), w);
}

one_bus-IsCounted : IsCounted one_bus (λ w. w.0)
one_bus-IsCounted = record {
  opens = λ d w. refl;
  closes = λ a w. refl;
  lists = λ w. refl;
  reads = λ a i n w. refl;
  detaches = λ a w. refl;
  claims = λ a i w. refl;
  releases = λ a i w. refl;
  sends = λ a e bytes t w. refl;
  receives = λ a e n t w. refl;
}

one_bus-IsNeutral : IsNeutral one_bus (λ w. w.0)
one_bus-IsNeutral = record { inits = λ w. refl; exits = λ w. refl }

abbrev no_file : Files (ℕ × ℕ) ℕ
no_file = record {
  stat = λ path w. (none, w);
  open_read = λ path w. (none, w);
  open_write = λ path w. (none, w);
  fread = λ f n w. ([], w);
  fwrite = λ f bytes w. (0, w);
  fclose = λ f w. (true, w);
}

no_file-IsApart : IsApart no_file (λ w. w.0)
no_file-IsApart = record {
  stats = λ path w. refl;
  opens_read = λ path w. refl;
  opens_write = λ path w. refl;
  freads = λ f n w. refl;
  fwrites = λ f bytes w. refl;
  fcloses = λ f w. refl;
}

abbrev plugged : Host (ℕ × ℕ)
plugged = record { world = (0, 0); context = false }

-- The reset with its six requests, and the release.
abbrev after_reset : Tool one_bus
after_reset = (record { world = (0, 6); context = false }, [])

reset_run :
    main one_bus no_file decimal outside (codes "reset" ∷ []) plugged ≡ some (0, after_reset)
unfolding main arguments list_eq global_init global_exit status_to_exit scan number during
    linke_open scanned mode_eq classify open_link reset linke_close send_control command
    attach_transport usb_transport transport_command close_link
reset_run = refl

main-handles_example : after_reset.0.world.0 ≡ plugged.world.0
main-handles_example =
    main-handles one_bus-IsCounted one_bus-IsNeutral no_file-IsApart decimal outside
      (codes "reset" ∷ []) plugged 0 after_reset reset_run
