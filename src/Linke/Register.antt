-- ===== src/Linke/Register.antt =====
-- Debug-module register access (src/linke.c).
pub mod File
use libopenwch_tools.Prelude.{
  ℕ, ◌+◌, ◌*◌, ◌/◌, ◌%◌, ◌^◌, Bool, true, false, not, List, [], ◌∷◌, ◌==◌, if◌then◌else◌, get_or,
  length, bit_or, ◌<<<◌, ◌>>>◌, u8,
}
use libopenwch_tools.Status.{Action, target, ⊤, pure, fail, ◌>>=◌, ◌>>◌}
use libopenwch_tools.Linke.Request.{Transport, Link, reply_max, reply_ok, command}

abbrev cmd_reg : ℕ
cmd_reg = 0x08

abbrev pub reg_op_read : ℕ
reg_op_read = 0x01

abbrev pub reg_op_write : ℕ
reg_op_write = 0x02

-- The nine bytes of a register request.
unfoldable pub reg_request : ℕ → ℕ → ℕ → List ℕ
reg_request reg value operation =
    0x81
    ∷ cmd_reg
    ∷ 0x06
    ∷ reg
    ∷ u8 (value >>> 24)
    ∷ u8 (value >>> 16)
    ∷ u8 (value >>> 8)
    ∷ u8 value
    ∷ operation
    ∷ []

-- The value in bytes 4 to 7 of a reply.
unfoldable pub reg_value : List ℕ → ℕ
reg_value reply =
    bit_or
      (bit_or (bit_or (get_or reply 4 0 <<< 24) (get_or reply 5 0 <<< 16)) (get_or reply 6 0 <<< 8))
      (get_or reply 7 0)

module _ {W : Type 0} (T : Transport W) where
  unfoldable pub answered : List ℕ → Action (Link W) ℕ
  unfolding reg_value
  answered reply =
      if not (length reply == 9)
      then fail target
      else if not (reply_ok reply)
      then fail target
      else pure (reg_value reply)

  -- `reg_access`
  unfoldable pub reg_access : ℕ → ℕ → ℕ → Action (Link W) ℕ
  unfolding reg_request answered
  reg_access reg value operation = do
    reply ← command T (reg_request reg value operation) reply_max
    answered reply

  -- `wl_linke_dmi_read`
  unfoldable pub dmi_read : ℕ → Action (Link W) ℕ
  unfolding reg_access
  dmi_read reg = reg_access reg 0 reg_op_read

  -- `wl_linke_dmi_write`
  unfoldable pub dmi_write : ℕ → ℕ → Action (Link W) ⊤
  unfolding reg_access
  dmi_write reg value = do reg_access reg value reg_op_write; pure tt
