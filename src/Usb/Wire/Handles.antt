-- ===== src/Usb/Wire/Handles.antt =====
-- The transfers of src/usb.c keep the number of open devices.
use libopenwch_tools.Prelude.{
  ℕ, ◌≡◌, refl, ◌∙◌, inl, inr, Option, none, some, List, [], ◌∷◌, ◌==◌, Bool, true, false, ◌&&◌,
  if◌then◌else◌, arith, length, Bool-cases,
}
use libopenwch_tools.Linke.Request.{Link, reply_max, command, received, send_control}
use libopenwch_tools.Linke.Control.{cmd_control, ctl_release, detach}
use libopenwch_tools.Usb.{Info}
use libopenwch_tools.Usb.Bus.{Code, done, failed, Libusb, Host, UsbLink}
use libopenwch_tools.Usb.Bus.Handles.{Gains, IsCounted, open_listed-Gains}
use libopenwch_tools.Usb.Wire.{
  boot_transfer, send_boot_command, replied, collect_reply, transport_command, with_context,
  usb_transport,
}

module _ {W D H : Type 0} (U : Libusb W D H) where
  -- Requests made one after another.
  unfoldable pub sent :
      List (List ℕ) → Link (Option (UsbLink H) × W) → Link (Option (UsbLink H) × W)
  sent [] l = l
  sent (request ∷ requests) l = sent requests (command (usb_transport U) request reply_max l).1

module _ {W D H : Type 0} {U : Libusb W D H} {handles : W → ℕ} (counted : IsCounted U handles) where
  boot_transfer-handles :
      (bytes : List ℕ) (p : Code H × W) (n : ℕ)
      → Gains handles p n
      → handles (boot_transfer U bytes p).1 ≡ n
  unfolding boot_transfer
  boot_transfer-handles bytes (failed e, w) n g = g
  boot_transfer-handles bytes (done a, w) n g =
      omega (arith, counted.closes a _, counted.sends a 2 bytes 1000 w)

  pub send_boot_command-handles :
      (info : Info) (bytes : List ℕ) (h : Host W)
      → handles (send_boot_command U info bytes h).1.world ≡ handles h.world
  unfolding send_boot_command
  send_boot_command-handles info bytes h = elim (Bool-cases (length bytes == 0)) [
    | inl z ↦ rw z refl
    | inr z ↦ elim (Bool-cases h.context) [
      | inr e ↦ rw (z, e) refl
      | inl e ↦
          rw (z, e)
            (boot_transfer-handles bytes _ (handles h.world) (
              open_listed-Gains counted info (U.get_device_list h.world) (handles h.world)
                (counted.lists h.world)))
    ]
  ]

  replied-handles : (p : Code (List ℕ) × W) → handles (replied U p).1 ≡ handles p.1
  unfolding replied
  replied-handles (failed e, w) = refl
  replied-handles (done r, w) = refl

  collect_reply-handles :
      (a : H) (room : ℕ) (p : Code ℕ × W) → handles (collect_reply U a room p).1 ≡ handles p.1
  unfolding collect_reply
  collect_reply-handles a room (failed e, w) = refl
  collect_reply-handles a room (done n, w) =
      replied-handles (U.transfer_in a 0x81 room 5000 w) ∙ counted.receives a 0x81 room 5000 w

  transport_command-handles :
      (link : UsbLink H) (request : List ℕ) (room : ℕ) (w : W)
      → handles (transport_command U link request room w).1 ≡ handles w
  unfolding transport_command
  transport_command-handles link request room w =
      collect_reply-handles link.handle _ (U.transfer_out link.handle 0x01 request 5000 w)
      ∙ counted.sends link.handle 0x01 request 5000 w

  -- The programmer's record points at this open device, and so many are open.
  abbrev pub IsHolding : UsbLink H → ℕ → Link (Option (UsbLink H) × W) → Type 0
  IsHolding link n l = (l.world.0 ≡ some link) × (handles l.world.1 ≡ n)

  with_context-holds :
      (link : UsbLink H) (n : ℕ) (p : Option (List ℕ) × W)
      → handles p.1 ≡ n
      → ((with_context U (some link) p).1.0 ≡ some link)
        × (handles (with_context U (some link) p).1.1 ≡ n)
  unfolding with_context
  with_context-holds link n (reply, w) e = (refl, e)

  pub usb_transport-holds :
      (link : UsbLink H) (n : ℕ) (request : List ℕ) (room : ℕ) (o : Option (UsbLink H)) (w : W)
      → o ≡ some link
      → handles w ≡ n
      → (((usb_transport U).command (o, w) request room).1.0 ≡ some link)
        × (handles ((usb_transport U).command (o, w) request room).1.1 ≡ n)
  unfolding usb_transport
  usb_transport-holds link n request room none w e k = cc
  usb_transport-holds link n request room (some l) w e k =
      let c =
        with_context-holds l n (transport_command U l request room w)
          (transport_command-handles l request room w ∙ k) in
      (c.0 ∙ e, c.1)

  received-IsHolding :
      (link : UsbLink H) (n : ℕ) (l : Link (Option (UsbLink H) × W))
      (p : Option (List ℕ) × (Option (UsbLink H) × W))
      → p.1.0 ≡ some link
      → handles p.1.1 ≡ n
      → IsHolding link n (received (usb_transport U) l p l).1
  unfolding received
  received-IsHolding link n l (none, w) e k = (e, k)
  received-IsHolding link n l (some reply, w) e k = (e, k)

  command-IsHolding :
      (link : UsbLink H) (n : ℕ) (request : List ℕ) (room : ℕ) (l : Link (Option (UsbLink H) × W))
      → IsHolding link n l
      → IsHolding link n (command (usb_transport U) request room l).1
  unfolding command
  command-IsHolding link n request room l k = elim (Bool-cases (l.open_ && l.attached)) [
    | inr e ↦ rw e k
    | inl e ↦
        let t =
          usb_transport-holds link n request (if room == 0 then reply_max else room) l.world.0
            l.world.1 k.0 k.1 in
        rw e (
          received-IsHolding link n l
            ((usb_transport U).command l.world request (if room == 0 then reply_max else room)) t.0
            t.1)
  ]

  pub sent-IsHolding :
      (link : UsbLink H) (n : ℕ) (requests : List (List ℕ)) (l : Link (Option (UsbLink H) × W))
      → IsHolding link n l
      → IsHolding link n (sent U requests l)
  unfolding sent
  sent-IsHolding link n [] l k = k
  sent-IsHolding link n (r ∷ requests) l k =
      sent-IsHolding link n requests (command (usb_transport U) r reply_max l).1
        (command-IsHolding link n r reply_max l k)

  either-IsHolding :
      (link : UsbLink H) (n : ℕ) (b : Bool) (l m : Link (Option (UsbLink H) × W))
      → IsHolding link n l
      → IsHolding link n m
      → IsHolding link n (if b then l else m)
  either-IsHolding link n true l m j k = j
  either-IsHolding link n false l m j k = k

  pub detach-IsHolding :
      (link : UsbLink H) (n : ℕ) (l : Link (Option (UsbLink H) × W))
      → IsHolding link n l
      → IsHolding link n (detach (usb_transport U) l)
  unfolding detach send_control
  detach-IsHolding link n l k =
      let c =
        command-IsHolding link n (0x81 ∷ cmd_control ∷ 0x01 ∷ ctl_release ∷ []) reply_max l k in
      either-IsHolding link n l.open_ _ l (either-IsHolding link n l.attached _ l c k) k
