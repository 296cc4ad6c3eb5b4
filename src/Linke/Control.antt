-- ===== src/Linke/Control.antt =====
-- Attach, release and reset of the target, and the programmer's version (src/linke.c).
pub mod Traffic
use libopenwch_tools.Prelude.{
  ℕ, ◌+◌, ◌-◌, ◌/◌, ◌%◌, Bool, true, false, Option, none, some, List, [], ◌∷◌, ◌++◌, ◌==◌, ltb,
  if◌then◌else◌, get_or, length, take, codes,
}
use libopenwch_tools.Status.{Action, ok, err, usage, io, ⊤, pure, fail, ignore, ◌>>=◌, ◌>>◌}
use libopenwch_tools.Linke.Request.{Transport, Link, reply_max, send_control}

abbrev pub cmd_control : ℕ
cmd_control = 0x0d

abbrev pub cmd_run : ℕ
cmd_run = 0x0b

abbrev pub ctl_status : ℕ
ctl_status = 0x01

abbrev pub ctl_attach : ℕ
ctl_attach = 0x02

abbrev pub ctl_reset_low : ℕ
ctl_reset_low = 0x13

abbrev pub ctl_release : ℕ
ctl_release = 0xff

-- A decimal number below 1000, as `%u` prints a byte.
pub decimal : ℕ → List ℕ
decimal n =
    if ltb n 10
    then (b'0' + n) ∷ []
    else if ltb n 100
    then (b'0' + n / 10) ∷ (b'0' + n % 10) ∷ []
    else (b'0' + n / 100) ∷ (b'0' + n / 10 % 10) ∷ (b'0' + n % 10) ∷ []

-- `programmer_name`
pub programmer_name : ℕ → List ℕ
programmer_name type =
    if type == 1
    then codes "WCH-Link (CH549)"
    else if type == 2
    then codes "WCH-Link (CH32V307)"
    else if type == 3
    then codes "WCH-Link (CH32V203)"
    else if type == 4
    then codes "WCH-LinkB"
    else if type == 5
    then codes "WCH-LinkW"
    else if type == 18
    then codes "WCH-LinkE"
    else codes "WCH programmer"

-- What `snprintf` leaves in a buffer of `out_len` bytes.
version_text : List ℕ → ℕ → List ℕ
unfolding decimal programmer_name
version_text reply out_len = take (out_len - 1) (
    programmer_name (get_or reply 5 0)
    ++ (b' ' ∷ decimal (get_or reply 3 0) ++ (b'.' ∷ decimal (get_or reply 4 0))))

module _ {W : Type 0} (T : Transport W) where
  -- `wl_linke_halt`
  unfoldable pub halt : Action (Link W) ⊤
  halt = do send_control T cmd_control ctl_attach 0; pure tt

  -- `wl_linke_resume`
  unfoldable pub resume : Action (Link W) ⊤
  resume = do
    send_control T cmd_run 0x01 reply_max
    send_control T cmd_control ctl_attach reply_max
    send_control T cmd_control ctl_release reply_max
    pure tt

  -- `wl_linke_reset`
  unfoldable pub reset : Action (Link W) ⊤
  unfolding halt resume
  reset = do halt; send_control T cmd_control ctl_reset_low reply_max; resume

  -- `wl_linke_unbrick`
  unfoldable pub unbrick : Action (Link W) ⊤
  unfolding reset
  unbrick = reset

  -- `wl_linke_get_version`; the result is the text in the buffer.
  unfoldable pub get_version : ℕ → Action (Link W) (List ℕ)
  unfolding version_text
  get_version out_len = if out_len == 0 then fail usage else (do
    reply ← send_control T cmd_control ctl_status reply_max
    if ltb (length reply) 6 then fail io else pure (version_text reply out_len))

  -- `wl_linke_attach_transport`
  unfoldable pub attach_transport : W → Link W
  attach_transport w = record {
    world = w;
    attached = true;
    open_ = true;
    chip_id = 0;
    configured = false;
  }

  -- `wl_linke_detach`
  unfoldable pub detach : Link W → Link W
  detach l =
      let released =
        (if l.open_
          then if l.attached then (send_control T cmd_control ctl_release reply_max l).1 else l
          else l) in
      record released { open_ = false; attached = false }
