-- ===== src/Usb/Wire.antt =====
-- The transfers with a programmer (src/usb.c): the commands that change its mode, and the transport of
-- the request layer.
pub mod Handles
use libopenwch_tools.Prelude.{
  ℕ, Bool, true, false, not, Option, none, some, List, [], ◌∷◌, ◌==◌, if◌then◌else◌, length,
}
use libopenwch_tools.Status.{⊤}
use libopenwch_tools.Linke.Request.{Transport}
use libopenwch_tools.Usb.{Info}
use libopenwch_tools.Usb.Bus.{
  UsbError, error_io, error_invalid_param, error_access, error_no_device, error_other, Code, done,
  failed, Libusb, Host, UsbLink, in_host, open_listed,
}

abbrev pub ep_boot : ℕ
ep_boot = 0x02

abbrev pub mode_switch_timeout_ms : ℕ
mode_switch_timeout_ms = 1000

abbrev pub ep_command : ℕ
ep_command = 0x01

abbrev pub ep_data : ℕ
ep_data = 0x02

abbrev pub ep_reply : ℕ
ep_reply = 0x81

abbrev pub timeout_ms : ℕ
timeout_ms = 5000

-- `wl_usb_error_is_access`
unfoldable pub error_is_access : UsbError → Bool
error_is_access error_access = true
error_is_access error_io = false
error_is_access error_invalid_param = false
error_is_access error_no_device = false
error_is_access UsbError.error_no_mem = false
error_is_access error_other = false
error_is_access (UsbError.another_error n) = false

-- A transfer counts only where all its bytes went out.
all_sent : List ℕ → Code ℕ → Code ⊤
all_sent bytes (failed e) = failed e
all_sent bytes (done transferred) = if transferred == length bytes then done tt else failed error_io

module _ {W D H : Type 0} (U : Libusb W D H) where
  boot_transfer : List ℕ → Code H × W → Code ⊤ × W
  unfolding all_sent
  boot_transfer bytes (failed e, w) = (failed e, w)
  boot_transfer bytes (done handle, w) =
      let (rc, w₁) = U.transfer_out handle ep_boot bytes mode_switch_timeout_ms w in
      (all_sent bytes rc, U.close handle w₁)

  -- `wl_usb_send_boot_command`
  unfoldable pub send_boot_command : Info → List ℕ → Host W → Code ⊤ × Host W
  unfolding boot_transfer
  send_boot_command info bytes h =
      if length bytes == 0
      then (failed error_invalid_param, h)
      else if not h.context
      then (failed error_other, h)
      else in_host U h (boot_transfer bytes (open_listed U info (U.get_device_list h.world)))

  -- `wl_usb_switch_arm_to_rv`
  unfoldable pub switch_arm_to_rv : Info → Host W → Code ⊤ × Host W
  switch_arm_to_rv info = send_boot_command info (0x81 ∷ 0xff ∷ 0x01 ∷ 0x52 ∷ [])

  -- `wl_usb_eject_iap`
  unfoldable pub eject_iap : Info → Host W → Code ⊤ × Host W
  eject_iap info = send_boot_command info (0x83 ∷ [])

  replied : Code (List ℕ) × W → Option (List ℕ) × W
  replied (failed _, w) = (none, w)
  replied (done reply, w) = (some reply, w)

  collect_reply : H → ℕ → Code ℕ × W → Option (List ℕ) × W
  unfolding replied
  collect_reply handle room (failed _, w) = (none, w)
  collect_reply handle room (done _, w) = replied (U.transfer_in handle ep_reply room timeout_ms w)

  -- `usb_transport_command`, on what the context points into.
  unfoldable pub transport_command : UsbLink H → List ℕ → ℕ → W → Option (List ℕ) × W
  unfolding collect_reply
  transport_command link request reply_max w =
      collect_reply link.handle (if reply_max == 0 then 64 else reply_max)
        (U.transfer_out link.handle ep_command request timeout_ms w)

  -- `usb_transport_bulk_out`
  pub transport_bulk_out : UsbLink H → List ℕ → W → Code ⊤ × W
  unfolding all_sent
  transport_bulk_out link bytes w =
      let (rc, w₁) = U.transfer_out link.handle ep_data bytes timeout_ms w in
      (all_sent bytes rc, w₁)

  with_context :
      Option (UsbLink H) → Option (List ℕ) × W → Option (List ℕ) × (Option (UsbLink H) × W)
  with_context ctx (reply, w) = (reply, (ctx, w))

  -- `usb_transport`, as `wl_usb_transport` returns it. The world is the context and the bus.
  unfoldable pub usb_transport : Transport (Option (UsbLink H) × W)
  unfolding with_context
  usb_transport = record {
    command = λ cw request room. elim cw.0 [
      | none ↦ (none, cw)
      | some link ↦ with_context cw.0 (transport_command link request room cw.1)
    ];
  }
