-- ===== src/Cli/Terminal.antt =====
-- The terminal on the debug module's data registers (`cmd_terminal` of src/main.c).
pub mod Packets
use libopenwch_tools.Prelude.{
  ℕ, zero, suc, ◌+◌, ◌-◌, ◌/◌, ◌%◌, Bool, ◌&&◌, not, List, [], ◌∷◌, ◌++◌, ◌==◌, leb, ltb,
  if◌then◌else◌, bit_and,
}
use libopenwch_tools.Status.{Action, Result, ok, err, ⊤, pure, ignore, ◌>>=◌, ◌>>◌}
use libopenwch_tools.Dm.Command.{Dmi, data0}
use libopenwch_tools.Cli.Tool.{Out, put, quietly, chars, newline}

abbrev pub data1 : ℕ
data1 = 0x05

-- What the low byte of DATA0 announces.
pub data Announced : Type 0 where
  nothing acknowledgement : Announced
  text : ℕ → Announced

abbrev is_length : ℕ → Bool
is_length n = leb 1 n && leb n 7

-- A length below 1 is no length, so that the subtraction may stop at 0.
unfoldable pub announced : ℕ → Announced
announced low =
    if not (bit_and low 0x80 == 0)
    then (if is_length (bit_and low 0x3f - 4) then text (bit_and low 0x3f - 4) else acknowledgement)
    else if is_length low
    then text low
    else nothing

-- The bytes of a register from the lowest one on.
unfoldable pub bytes_of : ℕ → ℕ → List ℕ
bytes_of zero word = []
bytes_of (suc n) word = word % 256 ∷ bytes_of n (word / 256)

-- `buffer`
unfoldable pub packet_text : ℕ → ℕ → ℕ → List ℕ
unfolding bytes_of
packet_text n word0 word1 =
    bytes_of (if ltb 3 n then 3 else n) (word0 / 256) ++ bytes_of (n - 3) word1

-- What one round of the loop is left with.
pub data Shown : Type 0 where
  skipped : Shown
  shown : List ℕ → Shown

module _ {S : Type 0} (D : Dmi S) where
  unfoldable pub take_packet : ℕ → Announced → Action S Shown
  unfolding packet_text
  take_packet word0 nothing = pure skipped
  take_packet word0 acknowledgement = do ignore (D.write data0 0); pure skipped
  take_packet word0 (text n) = do
    word1 ← (if ltb 3 n then D.read data1 else pure 0)
    (if ltb 3 n then ignore (D.write data1 0) else pure tt)
    ignore (D.write data0 0)
    pure (shown (packet_text n word0 word1))

  -- One round of the loop up to the output.
  unfoldable pub read_packet : Action S Shown
  unfolding take_packet announced
  read_packet = do word0 ← D.read data0; take_packet word0 (announced (word0 % 256))

  -- The rounds behind one: an output that fails ends the loop, and the status stays WL_OK.
  unfoldable pub print : ℕ → (ℕ → Action (Out S) ⊤) → Shown → Action (Out S) ⊤
  print writes next skipped = next writes
  print zero next (shown bytes) = pure tt
  print (suc writes) next (shown bytes) = do put (chars bytes); next writes

  -- The loop, for the rounds until the signal and the writes to stdout that succeed.
  unfoldable pub terminal_loop : ℕ → ℕ → Action (Out S) ⊤
  unfolding print read_packet
  terminal_loop zero writes = put newline
  terminal_loop (suc rounds) writes = do
    packet ← quietly read_packet
    print writes (terminal_loop rounds) packet
