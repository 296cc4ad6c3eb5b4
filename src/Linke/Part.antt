-- ===== src/Linke/Part.antt =====
-- Detection of the part and the selection of its debug clock (src/linke.c).
pub mod Selected
use libopenwch_tools.Prelude.{
  ℕ, ◌+◌, ◌*◌, ◌^◌, Bool, true, false, ◌&&◌, ◌||◌, not, Option, none, some, List, [], ◌∷◌, ◌==◌,
  ltb, if◌then◌else◌, get_or, length, bit_or, ◌<<<◌, u16,
}
use libopenwch_tools.Status.{Action, Result, ok, err, target, ⊤, pure, fail, ignore, ◌>>=◌, ◌>>◌}
use libopenwch_tools.Target.{Chip}
use libopenwch_tools.Target.Detect.{by_detect_id}
use libopenwch_tools.Linke.Request.{Transport, Link, reply_max, reply_ok, command, send_control}
use libopenwch_tools.Linke.Control.{cmd_control, cmd_run, ctl_attach, ctl_release}

abbrev cmd_iface : ℕ
cmd_iface = 0x0c

-- The family byte and the model word of a reply to the attach command.
abbrev pub reply_part : List ℕ → Option Chip
reply_part reply =
    by_detect_id (get_or reply 3 0) (u16 (bit_or (get_or reply 4 0 <<< 8) (get_or reply 5 0)))

-- The reply to the attach command carries no part.
abbrev pub no_chip_id : List ℕ → Bool
no_chip_id reply =
    ltb (length reply) 6
    || (not (get_or reply 0 0 == 0x82) || not (get_or reply 1 0 == cmd_control))

module _ {W : Type 0} (T : Transport W) where
  -- `set_interface_raw`
  unfoldable pub set_interface_raw : ℕ → ℕ → Action (Link W) ⊤
  set_interface_raw family_id interface_speed = do
    reply ← command T (0x81 ∷ cmd_iface ∷ 0x02 ∷ family_id ∷ interface_speed ∷ []) reply_max
    if reply_ok reply then pure tt else fail target

  unfoldable pub unconfigure : Action (Link W) ⊤
  unconfigure l = (ok tt, record l { configured = false })

  unfoldable pub known : Option Chip → Action (Link W) Chip
  known none = fail target
  known (some found) = pure found

  unfoldable pub detected : List ℕ → Action (Link W) Chip
  unfolding known
  detected reply = if no_chip_id reply then fail target else known (reply_part reply)

  unfoldable pub attach_and_detect : Action (Link W) Chip
  unfolding detected
  attach_and_detect = do reply ← send_control T cmd_control ctl_attach reply_max; detected reply

  -- `identify_chip_once`
  unfoldable pub identify_chip_once : Action (Link W) Chip
  unfolding unconfigure attach_and_detect
  identify_chip_once = do set_interface_raw 0x01 0x02; unconfigure; attach_and_detect

  unfoldable pub let_run_and_retry : Action (Link W) Chip
  let_run_and_retry = do
    ignore (send_control T cmd_run 0x01 0)
    ignore (send_control T cmd_control ctl_release 0)
    identify_chip_once

  unfoldable pub or_retry : Result Chip × Link W → Result Chip × Link W
  unfolding let_run_and_retry
  or_retry (ok c, l) = (ok c, l)
  or_retry (err _, l) = let_run_and_retry l

  -- `wl_linke_identify_chip`
  unfoldable pub identify_chip : Action (Link W) Chip
  unfolding or_retry
  identify_chip l = or_retry (identify_chip_once l)

  unfoldable pub configure : Chip → Action (Link W) ⊤
  configure c l = (ok tt, record l { chip_id = c.linke_id; configured = true })

  -- `wl_linke_set_interface`
  unfoldable pub set_interface : Chip → Action (Link W) ⊤
  unfolding configure
  set_interface c l =
      if l.configured && (l.chip_id == c.linke_id)
      then (ok tt, l)
      else (do set_interface_raw c.linke_id c.interface_speed; configure c) l
