-- ===== src/Programmer/Closing.antt =====
-- What a call on an open programmer keeps, and what closing it leaves.
use libopenwch_tools.Prelude.{ℕ, ◌-◌, ◌≡◌, ap, ◌∙◌, Option, some}
use libopenwch_tools.Usb.Bus.{Libusb, UsbLink, close_link}
use libopenwch_tools.Usb.Bus.Handles.{IsCounted, close_link-handles}
use libopenwch_tools.Usb.Wire.{usb_transport}
use libopenwch_tools.Usb.Wire.Handles.{IsHolding, usb_transport-holds, detach-IsHolding}
use libopenwch_tools.Linke.Request.{Link}
use libopenwch_tools.Linke.Control.{detach}
use libopenwch_tools.Linke.Preserves.{IsKeeping}
use libopenwch_tools.Programmer.{linke_close, linke_close_keep_target}

module _ {W D H : Type 0} {U : Libusb W D H} {handles : W → ℕ} (counted : IsCounted U handles) where
  -- The transport points at the open device, and so many are open.
  abbrev pub Points : UsbLink H → ℕ → Option (UsbLink H) × W → Type 0
  Points link n w = (w.0 ≡ some link) × (handles w.1 ≡ n)

  pub usb-IsKeeping : (link : UsbLink H) (n : ℕ) → IsKeeping (usb_transport U) (Points link n)
  usb-IsKeeping link n = record {
    commands = λ w request room p. usb_transport-holds counted link n request room w.0 w.1 p.0 p.1;
  }

  pub linke_close-handles :
      (link : UsbLink H) (n : ℕ) (l : Link (Option (UsbLink H) × W))
      → IsHolding counted link n l
      → handles (linke_close U l) ≡ n - 1
  unfolding linke_close
  linke_close-handles link n l s =
      let w = (detach (usb_transport U) l).world.1 in
      ap (λ o. handles (close_link U o w)) s.0
      ∙ close_link-handles counted link w
      ∙ ap (λ (m : ℕ). m - 1) (detach-IsHolding counted link n l s).1

  pub keep_target-handles :
      (link : UsbLink H) (n : ℕ) (l : Link (Option (UsbLink H) × W))
      → IsHolding counted link n l
      → handles (linke_close_keep_target U l) ≡ n - 1
  unfolding linke_close_keep_target
  keep_target-handles link n l s =
      ap (λ o. handles (close_link U o l.world.1)) s.0
      ∙ close_link-handles counted link l.world.1
      ∙ ap (λ (m : ℕ). m - 1) s.1
