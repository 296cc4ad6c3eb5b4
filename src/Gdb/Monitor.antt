-- ===== src/Gdb/Monitor.antt =====
-- The monitor commands (src/gdb_server.c).
pub mod Follows
use libopenwch_tools.Prelude.{
  ℕ, zero, suc, ◌+◌, ◌/◌, ◌%◌, Bool, true, false, ◌&&◌, ◌||◌, Option, none, some, List, [], ◌∷◌,
  ◌++◌, ◌==◌, leb, ltb, if◌then◌else◌, length, drop, codes, list_eq, ◌>>>◌,
}
use Prim.Native.String.{String}
use libopenwch_tools.Status.{Action, Result, ok, err, usage, ⊤, pure, fail, ignore, ◌>>=◌, ◌>>◌}
use libopenwch_tools.Dm.Command.{Dmi, gpr_read, pc_read, dcsr_read, csr_read, csr_write}
use libopenwch_tools.Dm.Memory.{read32, write32}
use libopenwch_tools.Gdb.Hex.{parse_hex_u32, parse_hex_bytes, hex_digit}
use libopenwch_tools.Gdb.Connection.{Conn, send_output, send_text}
use libopenwch_tools.Gdb.Document.{decimal, hex8, hex}
use libopenwch_tools.Gdb.Registers.{on_link, rv32e_gprs}
use libopenwch_tools.Gdb.Run.{
  dmcontrol, dmstatus, dmcontrol_halt, halt, wait_halted, enable_ebreak, resume,
}

-- A C string in a buffer: the bytes before the first zero.
unfoldable pub c_string : List ℕ → List ℕ
c_string [] = []
c_string (c ∷ bytes) = let later = c_string bytes in if c == 0 then [] else c ∷ later

-- `gdb_decode_hex_string`
unfoldable pub decode_hex_string : List ℕ → ℕ → Option (List ℕ)
decode_hex_string text out_max =
    if length text % 2 == 1 || (out_max == 0)
    then none
    else if leb out_max (length text / 2)
    then none
    else parse_hex_bytes (length text / 2) text

is_blank : ℕ → Bool
is_blank c = (c == b' ') || ((c == 9) || ((c == 13) || (c == 10)))

flush : List ℕ → List (List ℕ) → List (List ℕ)
flush [] words = words
flush (c ∷ word) words = (c ∷ word) ∷ words

-- The words that `strtok_r` gives, from the word so far on.
split_words : List ℕ → List ℕ → List (List ℕ)
unfolding is_blank flush
split_words word [] = flush word []
split_words word (c ∷ text) =
    let next = split_words [] text in
    let longer = split_words (word ++ c ∷ []) text in if is_blank c then flush word next else longer

-- `%-2u`
abbrev left2 : ℕ → List ℕ
left2 n = if ltb n 10 then decimal n ++ (b' ' ∷ []) else decimal n

-- `%03x`
abbrev pub hex3 : ℕ → List ℕ
hex3 n =
    if ltb n 0x1000
    then hex_digit (n / 256) ∷ hex_digit (n / 16 % 16) ∷ hex_digit (n % 16) ∷ []
    else hex n

abbrev pub line : String → ℕ → List ℕ
line label value = codes label ++ (codes "0x" ++ (hex8 value ++ (10 ∷ [])))

help_text : List ℕ
help_text =
    codes "wchlink monitor commands:\n"
    ++ (codes "  help                     this text\n"
        ++ (codes "  reset                    reset and halt\n"
            ++ (codes "  halt                     halt the core\n"
                ++ (codes "  resume                   resume the core\n"
                    ++ (codes "  info                     dmstatus/dcsr/pc\n"
                        ++ (codes "  regs                     x0-x15 and pc\n"
                            ++ (codes "  read32 <addr>            read one word\n"
                                ++ (codes "  write32 <addr> <value>   write one word\n"
                                    ++ (codes "  getcsr <csr>             read a CSR\n"
                                        ++ codes "  setcsr <csr> <value>     write a CSR\n")))))))))

module _ {S : Type 0} (D : Dmi S) where
  -- A line where the value could be read.
  show : String → Result ℕ × Conn S → Conn S
  show label (ok value, conn) = send_output (line label value) conn
  show label (err _, conn) = conn

  -- `gdb_monitor_info`
  monitor_info : Conn S → Conn S
  unfolding show on_link
  monitor_info conn =
      let conn₁ = show "dmstatus = " (on_link (D.read dmstatus) conn) in
      let conn₂ = show "dcsr     = " (on_link (dcsr_read D) conn₁) in
      show "pc       = " (on_link (pc_read D) conn₂)

  show_register : ℕ → (Conn S → Conn S) → Result ℕ × Conn S → Conn S
  show_register reg next (err _, conn) = send_output (codes "register read failed\n") conn
  show_register reg next (ok value, conn) =
      next (send_output (b'x' ∷ left2 reg ++ line " = " value) conn)

  -- `gdb_monitor_regs`, for the registers that are left, from `reg` on.
  monitor_regs_from : ℕ → ℕ → Conn S → Conn S
  unfolding show show_register on_link
  monitor_regs_from zero reg conn = show "pc  = " (on_link (pc_read D) conn)
  monitor_regs_from (suc n) reg conn =
      show_register reg (monitor_regs_from n (reg + 1)) (on_link (gpr_read D reg) conn)

  unfoldable pub monitor_reset : Action S ⊤
  monitor_reset = do
    ignore (D.write dmcontrol 0x8000_0003)
    ignore (D.write dmcontrol dmcontrol_halt)
    ignore (D.write dmcontrol dmcontrol_halt)
    ignore (wait_halted D)
    ignore (enable_ebreak D)

  unfoldable pub monitor_halt : Action S ⊤
  monitor_halt = do ignore (halt D); ignore (wait_halted D); ignore (enable_ebreak D)

  -- A call with a number; `fail usage` where the text is none.
  unfoldable pub with_number : {A : Type 0} → (ℕ → Action S A) → Option (ℕ × List ℕ) → Action S A
  with_number call none = fail usage
  with_number call (some p) = call p.0

  answer : String → Result (List ℕ) × Conn S → Conn S
  answer failure (ok text, conn) = send_output text conn
  answer failure (err _, conn) = send_output (codes failure) conn

  -- A command that reads or writes, with what is said where it fails.
  answered : String → Action S (List ℕ) → Conn S → Conn S
  unfolding answer on_link
  answered failure call conn = answer failure (on_link call conn)

  unfoldable pub command_read32 : List ℕ → Action S (List ℕ)
  unfolding with_number
  command_read32 arg =
      with_number
        (λ address. (do
          value ← read32 D address
          pure (codes "0x" ++ (hex8 address ++ line " = " value))))
        (parse_hex_u32 arg)

  unfoldable pub command_write32 : List ℕ → List ℕ → Action S (List ℕ)
  unfolding with_number
  command_write32 arg arg2 =
      with_number
        (λ address.
          with_number (λ value. (do write32 D address value; pure (codes "OK\n")))
            (parse_hex_u32 arg2))
        (parse_hex_u32 arg)

  unfoldable pub command_getcsr : List ℕ → Action S (List ℕ)
  unfolding with_number
  command_getcsr arg =
      with_number
        (λ csr. (do
          value ← csr_read D csr
          pure (codes "csr 0x" ++ (hex3 csr ++ line " = " value))))
        (parse_hex_u32 arg)

  unfoldable pub command_setcsr : List ℕ → List ℕ → Action S (List ℕ)
  unfolding with_number
  command_setcsr arg arg2 =
      with_number
        (λ csr.
          with_number (λ value. (do csr_write D csr value; pure (codes "OK\n")))
            (parse_hex_u32 arg2))
        (parse_hex_u32 arg)

  unknown_command : Conn S → Conn S
  unknown_command = send_output (codes "unknown monitor command\n")

  -- The commands with arguments.
  monitor_arguments : List ℕ → List (List ℕ) → Conn S → Conn S
  unfolding answered unknown_command command_read32 command_write32 command_getcsr command_setcsr
  monitor_arguments word [] = unknown_command
  monitor_arguments word (arg ∷ []) =
      if list_eq word (codes "read32")
      then answered "read32 failed\n" (command_read32 arg)
      else if list_eq word (codes "getcsr")
      then answered "getcsr failed\n" (command_getcsr arg)
      else unknown_command
  monitor_arguments word (arg ∷ arg2 ∷ more) =
      if list_eq word (codes "read32")
      then answered "read32 failed\n" (command_read32 arg)
      else if list_eq word (codes "write32")
      then answered "write32 failed\n" (command_write32 arg arg2)
      else if list_eq word (codes "getcsr")
      then answered "getcsr failed\n" (command_getcsr arg)
      else if list_eq word (codes "setcsr")
      then answered "setcsr failed\n" (command_setcsr arg arg2)
      else unknown_command

  -- A call whose status is dropped, and then a text.
  and_say : {A : Type 0} → Action S A → String → Conn S → Conn S
  unfolding on_link
  and_say call text conn = send_output (codes text) (on_link call conn).1

  monitor_words : List (List ℕ) → Conn S → Conn S
  unfolding monitor_arguments monitor_info monitor_regs_from and_say help_text monitor_reset
      monitor_halt
  monitor_words [] = send_output help_text
  monitor_words (word ∷ args) =
      if list_eq word (codes "help")
      then send_output help_text
      else if list_eq word (codes "reset")
      then and_say monitor_reset "reset/halt\n"
      else if list_eq word (codes "halt")
      then and_say monitor_halt "halted\n"
      else if list_eq word (codes "resume") || list_eq word (codes "continue")
      then and_say (resume D) "running\n"
      else if list_eq word (codes "info") || list_eq word (codes "status")
      then monitor_info
      else if list_eq word (codes "regs")
      then monitor_regs_from rv32e_gprs 0
      else monitor_arguments word args

  -- `gdb_monitor_command`
  unfoldable pub monitor_command : List ℕ → Conn S → Conn S
  unfolding monitor_words split_words
  monitor_command text = monitor_words (split_words [] text)

  run_decoded : Option (List ℕ) → Conn S → Conn S
  unfolding monitor_command
  run_decoded none conn = send_text "E01" conn
  run_decoded (some bytes) conn = send_text "OK" (monitor_command (c_string bytes) conn)

  -- `gdb_handle_qRcmd`
  unfoldable pub handle_qrcmd : List ℕ → Conn S → Conn S
  unfolding run_decoded decode_hex_string
  handle_qrcmd payload = run_decoded (decode_hex_string (drop 6 payload) 256)
