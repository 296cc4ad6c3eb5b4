-- ===== src/Gdb/Monitor/Follows.antt =====
-- What the monitor commands leave of the connection.
use libopenwch_tools.Prelude.{
  ℕ, zero, suc, ◌+◌, Bool, true, false, Option, none, some, List, [], ◌∷◌, ◌++◌, if◌then◌else◌,
  codes, drop,
}
use Prim.Native.String.{String}
use libopenwch_tools.Status.{Action, Result, ok, err}
use libopenwch_tools.Status.Preserves.{Preserves}
use libopenwch_tools.Dm.Preserves.{
  IsKept, gpr_read-Preserves, pc_read-Preserves, dcsr_read-Preserves,
}
use libopenwch_tools.Gdb.Preserves.{resume-Preserves}
use libopenwch_tools.Gdb.Preserves.Calls.{
  monitor_reset-Preserves, monitor_halt-Preserves, command_read32-Preserves,
  command_write32-Preserves, command_getcsr-Preserves, command_setcsr-Preserves,
}
use libopenwch_tools.Dm.Command.{Dmi, gpr_read, pc_read, dcsr_read}
use libopenwch_tools.Gdb.Connection.{Conn, send_output}
use libopenwch_tools.Gdb.Connection.Follows.{
  Follows, Follows-refl, Follows-trans, send_output-Follows, send_packet-Follows, on_link-Follows,
}
use libopenwch_tools.Gdb.Registers.{on_link, rv32e_gprs}
use libopenwch_tools.Gdb.Run.{dmstatus, resume}
use libopenwch_tools.Gdb.Monitor.{
  c_string, decode_hex_string, split_words, show, monitor_info, show_register, monitor_regs_from,
  monitor_reset, monitor_halt, answer, answered, command_read32, command_write32, command_getcsr,
  command_setcsr, unknown_command, monitor_arguments, and_say, monitor_words, monitor_command,
  run_decoded, handle_qrcmd, line, left2, help_text,
}

-- A handler that keeps to `Follows`.
abbrev pub Keeps : {S : Type 0} → (S → Type 0) → (Conn S → Conn S) → Type 0
Keeps {S} P f = (a : Conn S) → Follows P a (f a)

module _ {S : Type 0} {P : S → Type 0} {D : Dmi S} (kept : IsKept P D) where
  pub if-Keeps :
      (t : Bool) (f g : Conn S → Conn S) → Keeps P f → Keeps P g → Keeps P (if t then f else g)
  if-Keeps true f g j k = j
  if-Keeps false f g j k = k

  -- A call on the target, and then something of its result.
  pub called-Follows :
      {A : Type 0} (call : S → A × S) (f : A × Conn S → Conn S) (a : Conn S)
      → Preserves P call
      → ((p : A × Conn S) → Follows P p.1 (f p))
      → Follows P a (f (on_link call a))
  called-Follows call f a h k =
      Follows-trans a (on_link call a).1 _ (on_link-Follows call a h) (k (on_link call a))

  show-Follows : (label : String) (p : Result ℕ × Conn S) → Follows P p.1 (show D label p)
  unfolding show
  show-Follows label (ok value, a) = send_output-Follows (line label value) a
  show-Follows label (err e, a) = Follows-refl a

  shown-Follows :
      (label : String) (call : Action S ℕ)
      → Preserves P call
      → Keeps P (λ a. show D label (on_link call a))
  shown-Follows label call h a = called-Follows call (show D label) a h (show-Follows label)

  monitor_info-Follows : Keeps P (monitor_info D)
  unfolding monitor_info
  monitor_info-Follows a =
      let b = show D "dmstatus = " (on_link (D.read dmstatus) a) in
      let d = show D "dcsr     = " (on_link (dcsr_read D) b) in
      Follows-trans a b _ (shown-Follows "dmstatus = " (D.read dmstatus) (kept.reads dmstatus) a) (
        Follows-trans b d _ (shown-Follows "dcsr     = " (dcsr_read D) (dcsr_read-Preserves kept) b)
          (shown-Follows "pc       = " (pc_read D) (pc_read-Preserves kept) d))

  show_register-Follows :
      (reg : ℕ) (next : Conn S → Conn S) (p : Result ℕ × Conn S)
      → Keeps P next
      → Follows P p.1 (show_register D reg next p)
  unfolding show_register
  show_register-Follows reg next (err e, a) k =
      send_output-Follows (codes "register read failed\n") a
  show_register-Follows reg next (ok value, a) k =
      let text = b'x' ∷ left2 reg ++ line " = " value in
      Follows-trans a (send_output text a) _ (send_output-Follows text a) (k (send_output text a))

  monitor_regs_from-Follows : (n reg : ℕ) → Keeps P (monitor_regs_from D n reg)
  unfolding monitor_regs_from
  monitor_regs_from-Follows zero reg a =
      shown-Follows "pc  = " (pc_read D) (pc_read-Preserves kept) a
  monitor_regs_from-Follows (suc n) reg a =
      called-Follows (gpr_read D reg) (show_register D reg (monitor_regs_from D n (reg + 1))) a
        (gpr_read-Preserves kept reg)
        (λ p.
          show_register-Follows reg (monitor_regs_from D n (reg + 1)) p
            (monitor_regs_from-Follows n (reg + 1)))

  answer-Follows :
      (failure : String) (p : Result (List ℕ) × Conn S) → Follows P p.1 (answer D failure p)
  unfolding answer
  answer-Follows failure (ok text, a) = send_output-Follows text a
  answer-Follows failure (err e, a) = send_output-Follows (codes failure) a

  answered-Follows :
      (failure : String) (call : Action S (List ℕ))
      → Preserves P call
      → Keeps P (answered D failure call)
  unfolding answered
  answered-Follows failure call h a =
      called-Follows call (answer D failure) a h (answer-Follows failure)

  unknown-Follows : Keeps P (unknown_command D)
  unfolding unknown_command
  unknown-Follows = send_output-Follows (codes "unknown monitor command\n")

  monitor_arguments-Follows :
      (word : List ℕ) (args : List (List ℕ)) → Keeps P (monitor_arguments D word args)
  unfolding monitor_arguments
  monitor_arguments-Follows word [] = unknown-Follows
  monitor_arguments-Follows word (x ∷ []) =
      let read =
        answered-Follows "read32 failed\n" (command_read32 D x) (command_read32-Preserves kept x) in
      let get =
        answered-Follows "getcsr failed\n" (command_getcsr D x) (command_getcsr-Preserves kept x) in
      if-Keeps _ _ _ read (if-Keeps _ _ _ get unknown-Follows)
  monitor_arguments-Follows word (x ∷ y ∷ more) =
      let read =
        answered-Follows "read32 failed\n" (command_read32 D x) (command_read32-Preserves kept x) in
      let write =
        answered-Follows "write32 failed\n" (command_write32 D x y)
          (command_write32-Preserves kept x y) in
      let get =
        answered-Follows "getcsr failed\n" (command_getcsr D x) (command_getcsr-Preserves kept x) in
      let set =
        answered-Follows "setcsr failed\n" (command_setcsr D x y)
          (command_setcsr-Preserves kept x y) in
      if-Keeps _ _ _ read
        (if-Keeps _ _ _ write (if-Keeps _ _ _ get (if-Keeps _ _ _ set unknown-Follows)))

  and_say-Follows :
      {A : Type 0} (call : Action S A) (text : String)
      → Preserves P call
      → Keeps P (and_say D call text)
  unfolding and_say
  and_say-Follows call text h a =
      called-Follows call (λ p. send_output (codes text) p.1) a h
        (λ p. send_output-Follows (codes text) p.1)

  monitor_words-Follows : (words : List (List ℕ)) → Keeps P (monitor_words D words)
  unfolding monitor_words
  monitor_words-Follows [] = send_output-Follows help_text
  monitor_words-Follows (word ∷ args) = if-Keeps _ _ _ (send_output-Follows help_text) (
      if-Keeps _ _ _
        (and_say-Follows (monitor_reset D) "reset/halt\n" (monitor_reset-Preserves kept))
        (if-Keeps _ _ _ (and_say-Follows (monitor_halt D) "halted\n" (monitor_halt-Preserves kept))
          (if-Keeps _ _ _ (and_say-Follows (resume D) "running\n" (resume-Preserves kept)) (
            if-Keeps _ _ _ monitor_info-Follows (
              if-Keeps _ _ _ (monitor_regs_from-Follows rv32e_gprs 0)
                (monitor_arguments-Follows word args))))))

  run_decoded-Follows : (o : Option (List ℕ)) → Keeps P (run_decoded D o)
  unfolding run_decoded monitor_command
  run_decoded-Follows none a = send_packet-Follows (codes "E01") a
  run_decoded-Follows (some bytes) a =
      let b = monitor_words D (split_words [] (c_string bytes)) a in
      Follows-trans a b _ (monitor_words-Follows (split_words [] (c_string bytes)) a)
        (send_packet-Follows (codes "OK") b)

  pub handle_qrcmd-Follows : (payload : List ℕ) → Keeps P (handle_qrcmd D payload)
  unfolding handle_qrcmd
  handle_qrcmd-Follows payload = run_decoded-Follows (decode_hex_string (drop 6 payload) 256)
