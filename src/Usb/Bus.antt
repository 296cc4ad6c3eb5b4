-- ===== src/Usb/Bus.antt =====
-- Finding, opening and closing a programmer through libusb, which is a parameter (src/usb.c).
pub mod Handles
pub mod Found
use libopenwch_tools.Prelude.{
  ℕ, ◌+◌, ◌-◌, ◌≤◌, Bool, true, false, ◌&&◌, Option, none, some, List, [], ◌∷◌, ◌==◌, leb, not,
  if◌then◌else◌, length, take,
}
use libopenwch_tools.Status.{⊤}
use libopenwch_tools.Usb.{
  Mode, unknown, Info, classify, mode_eq, interface_number, serial_max, product_max,
}

-- A negative result of libusb: those that the code names, and the others.
pub data UsbError : Type 0 where
  error_io error_invalid_param error_access error_no_device error_no_mem error_other : UsbError
  another_error : ℕ → UsbError

-- A result of libusb: what the call gives where it is not negative.
pub data Code (A : Type 0) : Type 0 where
  done : A → Code A
  failed : UsbError → Code A

-- `struct libusb_device_descriptor`, its fields that are read.
pub record Descriptor : Type 0 where
  pub id_vendor : ℕ
  pub id_product : ℕ
  pub i_serial_number : ℕ
  pub i_product : ℕ

-- The calls of libusb on a world `W`, with its devices and its open handles.
pub record Libusb (W D H : Type 0) : Type 0 where
  pub init : W → Code ⊤ × W
  pub exit : W → W
  pub get_device_list : W → Code (List D) × W
  pub get_device_descriptor : D → Option Descriptor
  pub get_bus_number : D → ℕ
  pub get_device_address : D → ℕ
  pub open_device : D → W → Code H × W
  pub close : H → W → W
  -- The descriptor's text, for a buffer of the given size.
  pub get_string_descriptor : H → ℕ → ℕ → W → Option (List ℕ) × W
  pub set_auto_detach : H → W → W
  pub claim_interface : H → ℕ → W → Code ⊤ × W
  pub release_interface : H → ℕ → W → W
  -- To an endpoint, with a timeout: how many bytes went out.
  pub transfer_out : H → ℕ → List ℕ → ℕ → W → Code ℕ × W
  -- From an endpoint, with the room and a timeout: the bytes that came in.
  pub transfer_in : H → ℕ → ℕ → ℕ → W → Code (List ℕ) × W

-- The static `context` (whether it is not null) and the world.
pub record Host (W : Type 0) : Type 0 where
  pub world : W
  pub context : Bool

-- `struct wl_usb_link`
pub record UsbLink (H : Type 0) : Type 0 where
  pub handle : H
  pub claimed : Bool

module _ {W D H : Type 0} (U : Libusb W D H) where
  unfoldable pub initialised : Code ⊤ × W → Code ⊤ × Host W
  initialised (done _, w) = (done tt, record { world = w; context = true })
  initialised (failed e, w) = (failed e, record { world = w; context = false })

  -- `wl_usb_global_init`
  unfoldable pub global_init : Host W → Code ⊤ × Host W
  unfolding initialised
  global_init h = if h.context then (done tt, h) else initialised (U.init h.world)

  -- `wl_usb_global_exit`
  unfoldable pub global_exit : Host W → Host W
  global_exit h = if h.context then record { world = U.exit h.world; context = false } else h

  read_text : ℕ → Option (List ℕ) × W → List ℕ × W
  read_text out_len (none, w) = ([], w)
  read_text out_len (some text, w) = (take (out_len - 1) text, w)

  -- `read_string`
  unfoldable pub read_string : H → ℕ → ℕ → W → List ℕ × W
  unfolding read_text
  read_string handle index out_len w =
      if index == 0
      then ([], w)
      else read_text out_len (U.get_string_descriptor handle index out_len w)

  -- What is known of a device before it is opened.
  abbrev pub closed_info : Mode → Descriptor → D → Info
  closed_info mode desc d = record {
    mode = mode;
    vid = desc.id_vendor;
    pid = desc.id_product;
    bus = U.get_bus_number d;
    address = U.get_device_address d;
    accessible = false;
    serial = [];
    product = [];
  }

  examine : Info → Descriptor → Code H × W → Info × W
  unfolding read_string
  examine info desc (failed _, w) = (info, w)
  examine info desc (done handle, w) =
      let (serial, w₁) = read_string handle desc.i_serial_number serial_max w in
      let (product, w₂) = read_string handle desc.i_product product_max w₁ in
      (record info { accessible = true; serial = serial; product = product }, U.close handle w₂)

  put_front : Info → List Info × W → List Info × W
  put_front info (infos, w) = (info ∷ infos, w)

  -- The device is a programmer's unless its descriptor cannot be read or is of another kind.
  programmer_of : Option Descriptor → Option (Mode × Descriptor)
  programmer_of none = none
  programmer_of (some desc) =
      let mode = classify desc.id_vendor desc.id_product in
      if mode_eq mode unknown then none else some (mode, desc)

  -- One round of the loop of `wl_usb_scan`, with what is still free of the room for programmers and
  -- the rounds that follow.
  scan_device : ℕ → (ℕ → W → List Info × W) → D → Option (Mode × Descriptor) → W → List Info × W
  unfolding examine put_front
  scan_device room rest d none w = rest room w
  scan_device room rest d (some (mode, desc)) w =
      let (info, w₁) = examine (closed_info mode desc d) desc (U.open_device d w) in
      if room == 0 then ([], w) else put_front info (rest (room - 1) w₁)

  scan_devices : ℕ → List D → W → List Info × W
  unfolding scan_device programmer_of
  scan_devices room [] w = ([], w)
  scan_devices room (d ∷ ds) w =
      let rest : ℕ → W → List Info × W = λ n w₁. scan_devices n ds w₁ in
      scan_device room rest d (programmer_of (U.get_device_descriptor d)) w

  listed : ℕ → Code (List D) × W → Code (List Info) × W
  unfolding scan_devices
  listed max_links (failed e, w) = (failed e, w)
  listed max_links (done ds, w) = let (infos, w₁) = scan_devices max_links ds w in (done infos, w₁)

  abbrev pub in_host : {A : Type 0} → Host W → A × W → A × Host W
  in_host h (a, w) = (a, record h { world = w })

  -- `wl_usb_scan`
  unfoldable pub scan : ℕ → Host W → Code (List Info) × Host W
  unfolding listed
  scan max_links h =
      if not h.context
      then (failed error_other, h)
      else in_host h (listed max_links (U.get_device_list h.world))

  -- The loop that opens the device at the programmer's bus and address.
  open_at : Info → List D → W → Code H × W
  open_at info [] w = (failed error_no_device, w)
  open_at info (d ∷ ds) w =
      let later = open_at info ds w in
      if (U.get_bus_number d == info.bus) && (U.get_device_address d == info.address)
      then U.open_device d w
      else later

  unfoldable pub open_listed : Info → Code (List D) × W → Code H × W
  unfolding open_at
  open_listed info (failed e, w) = (failed e, w)
  open_listed info (done ds, w) = open_at info ds w

  claimed_link : H → Code ⊤ × W → Code (UsbLink H) × W
  claimed_link handle (failed e, w) = (failed e, U.close handle w)
  claimed_link handle (done _, w) = (done (record { handle = handle; claimed = true }), w)

  claim : Code H × W → Code (UsbLink H) × W
  unfolding claimed_link
  claim (failed e, w) = (failed e, w)
  claim (done handle, w) =
      claimed_link handle (U.claim_interface handle interface_number (U.set_auto_detach handle w))

  -- `wl_usb_open`
  unfoldable pub open_link : Info → Host W → Code (UsbLink H) × Host W
  unfolding claim open_listed
  open_link info h =
      if not h.context
      then (failed error_other, h)
      else in_host h (claim (open_listed info (U.get_device_list h.world)))

  -- `wl_usb_close`
  unfoldable pub close_link : Option (UsbLink H) → W → W
  close_link none w = w
  close_link (some l) w =
      U.close l.handle (if l.claimed then U.release_interface l.handle interface_number w else w)
