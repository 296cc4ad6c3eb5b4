-- ===== src/Linke/Register/File.antt =====
-- The bytes of register requests and of their replies (src/linke.c).
use libopenwch_tools.Prelude.{
  ℕ, ◌+◌, ◌*◌, ◌^◌, ◌<◌, ◌≡◌, ap, ◌∙◌, List, [], ◌∷◌, arith, u8, ◌>>>◌, ◌<<<◌, bit_or,
}
use libopenwch_tools.Prelude.Bits.{bit_or_multiple}
use libopenwch_tools.Status.{ok}
use libopenwch_tools.Linke.Request.{Transport, Link, reply_ok}
use libopenwch_tools.Linke.Register.{reg_request, reg_value, answered}

-- Four bytes joined by shifts and `|`, the highest first.
be_word :
    (a b c d : ℕ)
    → b < 256
    → c < 256
    → d < 256
    → bit_or (bit_or (bit_or (a <<< 24) (b <<< 16)) (c <<< 8)) d
      ≡ a * 2 ^ 24 + b * 2 ^ 16 + c * 2 ^ 8 + d
be_word a b c d hb hc hd =
    rw (bit_or_multiple 24 (a <<< 24) (b <<< 16) (omega arith) (omega arith)) (
      rw (bit_or_multiple 16 (a <<< 24 + b <<< 16) (c <<< 8) (omega arith) (omega arith))
        (bit_or_multiple 8 (a <<< 24 + b <<< 16 + c <<< 8) d (omega arith) (omega arith)))

-- The value that a request carries is read back from the same bytes of a reply.
pub reg_value-reg_request :
    (reg value operation : ℕ) → value < 2 ^ 32 → reg_value (reg_request reg value operation) ≡ value
unfolding reg_value reg_request
reg_value-reg_request reg value operation fits =
    be_word (u8 (value >>> 24)) (u8 (value >>> 16)) (u8 (value >>> 8)) (u8 value) (omega arith)
      (omega arith) (omega arith)
    ∙ omega arith

-- The reply to a register request: the echo, with the register's value and a status of 0.
abbrev pub reg_reply : ℕ → ℕ → List ℕ
reg_reply reg value =
    0x82
    ∷ 0x08
    ∷ 0x06
    ∷ reg
    ∷ u8 (value >>> 24)
    ∷ u8 (value >>> 16)
    ∷ u8 (value >>> 8)
    ∷ u8 value
    ∷ 0x00
    ∷ []

module _ {W : Type 0} (T : Transport W) where
  pub answered_lem :
      (l : Link W) (reg value : ℕ)
      → value < 2 ^ 32
      → answered T (reg_reply reg value) l ≡ (ok value, l)
  unfolding answered reply_ok reg_value
  answered_lem l reg value fits =
      ap (λ (v : ℕ). (ok v, l))
        (be_word _ (u8 (value >>> 16)) (u8 (value >>> 8)) (u8 value) (omega arith) (omega arith)
            (omega arith)
          ∙ omega arith)
