-- ===== src/Linke/Request.antt =====
-- One open programmer and the request layer (src/linke.h, src/linke.c, src/transport.h).
use libopenwch_tools.Prelude.{
  ℕ, Bool, true, false, ◌&&◌, ◌||◌, not, Option, none, some, List, [], ◌∷◌, ◌==◌, if◌then◌else◌,
  get_or, length, ◌≡◌, arith,
}
use libopenwch_tools.Status.{Action, ok, err, usb}

-- `struct wl_transport`: what sends a request (with the room for its reply) through the world and
-- answers with the reply, or with `none` for a negative result. The code never calls `bulk_out`.
pub record Transport (W : Type 0) : Type 0 where
  pub command : W → List ℕ → ℕ → Option (List ℕ) × W

-- `wl_linke_t`. `world` is what `ctx` points into; `attached` says that `transport` is not null.
pub record Link (W : Type 0) : Type 0 where
  pub world : W
  pub attached : Bool
  pub open_ : Bool
  pub chip_id : ℕ
  pub configured : Bool

abbrev pub reply_max : ℕ
reply_max = 64

-- `reply_ok`
unfoldable pub reply_ok : List ℕ → Bool
reply_ok reply =
    if length reply == 0
    then false
    else if not (get_or reply 0 0 == 0x82)
    then false
    else if (length reply == 9) && ((get_or reply 8 0 == 0x02) || (get_or reply 8 0 == 0x03))
    then false
    else true

module _ {W : Type 0} (T : Transport W) where
  unfoldable pub received : Link W → Option (List ℕ) × W → Action (Link W) (List ℕ)
  received l (none, w) _ = (err usb, record l { world = w })
  received l (some reply, w) _ = (ok reply, record l { world = w })

  -- `wl_linke_command`; a `room` of 0 is that of the caller that wants no reply.
  unfoldable pub command : List ℕ → ℕ → Action (Link W) (List ℕ)
  unfolding received
  command request room l =
      if not (l.open_ && l.attached)
      then (err usb, l)
      else received l (T.command l.world request (if room == 0 then reply_max else room)) l

  -- `send_control`
  unfoldable pub send_control : ℕ → ℕ → ℕ → Action (Link W) (List ℕ)
  send_control code argument room = command (0x81 ∷ code ∷ 0x01 ∷ argument ∷ []) room

-- The programmer can be asked.
abbrev pub IsUp : {W : Type 0} → Link W → Type 0
IsUp l = (l.open_ ≡ true) × (l.attached ≡ true)

module _ {W : Type 0} (T : Transport W) (request : List ℕ) (room : ℕ) (l : Link W) where
  -- The world's answer to a request.
  abbrev answer : Option (List ℕ) × W
  answer = T.command l.world request (if room == 0 then reply_max else room)

  pub command_up :
      (reply : List ℕ)
      → IsUp l
      → answer.0 ≡ some reply
      → command T request room l ≡ (ok reply, record l { world = answer.1 })
  unfolding command
  command_up reply up e = ground arith

  pub command_down : l.open_ && l.attached ≡ false → command T request room l ≡ (err usb, l)
  unfolding command
  command_down down = rw down

  -- A request changes nothing of the programmer's record but what the transport points into.
  pub command-configured :
      ((command T request room l).1.configured ≡ l.configured)
      × ((command T request room l).1.open_ ≡ l.open_)
      × ((command T request room l).1.attached ≡ l.attached)
  unfolding command received
  command-configured = ground arith
