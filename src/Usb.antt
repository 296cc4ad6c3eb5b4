-- ===== src/Usb.antt =====
-- What a programmer looks like on the bus (src/usb_info.h and the tables of src/usb.c).
pub mod Bus
pub mod Wire
use libopenwch_tools.Prelude.{ℕ, Bool, true, false, ◌&&◌, List, ◌==◌, if◌then◌else◌}
use Prim.Native.String.{String}

-- `enum wl_usb_mode`
pub data Mode : Type 0 where
  rv arm iap unknown : Mode

-- `mode == expected`
unfoldable pub mode_eq : Mode → Mode → Bool
mode_eq rv rv = true
mode_eq rv arm = false
mode_eq rv iap = false
mode_eq rv unknown = false
mode_eq arm rv = false
mode_eq arm arm = true
mode_eq arm iap = false
mode_eq arm unknown = false
mode_eq iap rv = false
mode_eq iap arm = false
mode_eq iap iap = true
mode_eq iap unknown = false
mode_eq unknown rv = false
mode_eq unknown arm = false
mode_eq unknown iap = false
mode_eq unknown unknown = true

-- `wl_usb_info_t`
pub record Info : Type 0 where
  pub mode : Mode
  pub vid : ℕ
  pub pid : ℕ
  pub bus : ℕ
  pub address : ℕ
  pub accessible : Bool
  pub serial : List ℕ
  pub product : List ℕ

abbrev pub vid_wch : ℕ
vid_wch = 0x1a86

abbrev pub pid_link_rv : ℕ
pid_link_rv = 0x8010

abbrev pub pid_link_arm : ℕ
pid_link_arm = 0x8012

abbrev pub vid_iap : ℕ
vid_iap = 0x4348

abbrev pub pid_iap : ℕ
pid_iap = 0x55e0

abbrev pub interface_number : ℕ
interface_number = 0

-- The sizes of the text buffers, terminator included.
abbrev pub serial_max : ℕ
serial_max = 64

abbrev pub product_max : ℕ
product_max = 128

-- `wl_usb_mode_name`
pub mode_name : Mode → String
mode_name rv = "RISC-V debug"
mode_name arm = "ARM/SWD"
mode_name iap = "USB ISP bootloader"
mode_name unknown = "unknown"

-- `wl_usb_mode_is_usable`
unfoldable pub mode_is_usable : Mode → Bool
unfolding mode_eq
mode_is_usable mode = mode_eq mode rv

-- `classify`
unfoldable pub classify : ℕ → ℕ → Mode
classify vid pid =
    if (vid == vid_wch) && (pid == pid_link_rv)
    then rv
    else if (vid == vid_wch) && (pid == pid_link_arm)
    then arm
    else if (vid == vid_iap) && (pid == pid_iap)
    then iap
    else if (vid == vid_wch) && (pid == pid_iap)
    then iap
    else unknown
