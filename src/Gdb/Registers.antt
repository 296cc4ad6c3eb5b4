-- ===== src/Gdb/Registers.antt =====
-- The register packets g, p and P (src/gdb_server.c).
use libopenwch_tools.Prelude.{
  ℕ, zero, suc, ◌+◌, Option, none, some, List, [], ◌∷◌, ◌++◌, ◌==◌, ltb, if◌then◌else◌, drop,
}
use libopenwch_tools.Status.{Action, Result, ok, err, usage, pure, fail, ◌>>=◌, ◌>>◌}
use libopenwch_tools.Dm.Command.{Dmi, gpr_read, gpr_write, pc_read, pc_write}
use libopenwch_tools.Gdb.Hex.{parse_hex_u32, format_hex_u32_le}
use libopenwch_tools.Gdb.Connection.{Conn, send_packet, send_text}

abbrev pub rv32e_gprs : ℕ
rv32e_gprs = 16

abbrev pub reg_pc : ℕ
reg_pc = 16

-- `strchr`, and what follows the character.
unfoldable pub after_char : ℕ → List ℕ → Option (List ℕ)
after_char c [] = none
after_char c (x ∷ text) = let later = after_char c text in if x == c then some text else later

module _ {S : Type 0} where
  -- A call on the link of the connection.
  unfoldable pub on_link {ℓ} : {A : Type ℓ} → (S → A × S) → Conn S → A × Conn S
  on_link call conn = let (a, s) = call conn.link in (a, record conn { link = s })

  -- The answer to a packet: a payload where it was carried out, and E01 where it failed.
  abbrev pub reply : Result (List ℕ) × Conn S → Conn S
  reply p = elim p.0 [ ok payload ↦ send_packet payload p.1 | err _ ↦ send_text "E01" p.1 ]

module _ {S : Type 0} (D : Dmi S) where
  -- The loop of `gdb_handle_g` for the registers that are left, from `reg` on.
  unfoldable pub read_gprs : ℕ → ℕ → Action S (List ℕ)
  read_gprs zero reg = pure []
  read_gprs (suc n) reg = do
    value ← gpr_read D reg
    rest ← read_gprs n (reg + 1)
    pure (format_hex_u32_le value ++ rest)

  -- The payload of the reply to g.
  unfoldable pub registers : Action S (List ℕ)
  unfolding read_gprs
  registers = do gprs ← read_gprs rv32e_gprs 0; pc ← pc_read D; pure (gprs ++ format_hex_u32_le pc)

  -- `gdb_handle_g`
  unfoldable pub handle_g : Conn S → Conn S
  unfolding registers on_link
  handle_g conn = reply (on_link registers conn)

  unfoldable pub read_register : ℕ → Action S (List ℕ)
  read_register reg = do
    value ← if reg == reg_pc then pc_read D else gpr_read D reg
    pure (format_hex_u32_le value)

  unfoldable pub write_register : ℕ → Option (ℕ × List ℕ) → Action S (List ℕ)
  write_register reg none = fail usage
  write_register reg (some (value, rest)) = do
    if reg == reg_pc then pc_write D value else gpr_write D reg value
    pure (b'O' ∷ b'K' ∷ [])

  -- Without a `=` the packet reads the register, and with one it writes it.
  unfoldable pub access_register : List ℕ → Option (ℕ × List ℕ) → Action S (List ℕ)
  unfolding read_register write_register after_char
  access_register payload none = fail usage
  access_register payload (some (reg, rest)) =
      if ltb reg_pc reg then fail usage else elim (after_char b'=' payload) [
        | none ↦ read_register reg
        | some value ↦ write_register reg (parse_hex_u32 value)
      ]

  -- `gdb_handle_p`, up to the reply.
  unfoldable pub packet_reply : List ℕ → Action S (List ℕ)
  unfolding access_register
  packet_reply payload = access_register payload (parse_hex_u32 (drop 1 payload))

  -- `gdb_handle_p`
  unfoldable pub handle_p : List ℕ → Conn S → Conn S
  unfolding packet_reply on_link
  handle_p payload conn = reply (on_link (packet_reply payload) conn)
