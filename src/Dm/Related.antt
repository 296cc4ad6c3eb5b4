-- ===== src/Dm/Related.antt =====
-- The calls of src/dm.c on two debug modules that answer alike.
use libopenwch_tools.Prelude.{
  ℕ, zero, suc, ◌+◌, ◌^◌, ◌<◌, ◌≤◌, Bool, true, false, List, [], ◌∷◌, ◌==◌, bit_and, All, arith,
}
use libopenwch_tools.Status.{Action, usage, target, pure}
use libopenwch_tools.Status.Simulates.{
  Simulates, Any, pure-Simulates, fail-Simulates, bind-Simulates, then-Simulates, ignore-Simulates,
  if-Simulates,
}
use libopenwch_tools.Dm.Encode.{write_program, read_program, rv_store, rv_load, rv_ebreak}
use libopenwch_tools.Dm.Command.{
  Dmi, abstractcs, data0, dmcommand, unless_idle, poll, finish_wait, wait_for, wait, issue,
  command_out, command_in, gpr_write, gpr_read, load_words, load_program, run_write, run_read,
  timeout_us, busy_mask, abstractauto,
}
use libopenwch_tools.Dm.Memory.{read_sized, read32, write32}

abbrev pub Word : ℕ → Type 0
Word v = v < 2 ^ 32

-- Two debug modules of which each register access answers alike and keeps the states related.
pub record Related {S T : Type 0} (R : S → T → Type 0) (D : Dmi S) (E : Dmi T) : Type 0 where
  pub reads : (reg : ℕ) → Simulates R Word (D.read reg) (E.read reg)
  pub writes : (reg v : ℕ) → v < 2 ^ 32 → Simulates R (Any R) (D.write reg v) (E.write reg v)

module _ {S T : Type 0} {R : S → T → Type 0} {D : Dmi S} {E : Dmi T} (related : Related R D E) where
  abbrev Alike : {A : Type 0} → (A → Type 0) → Action S A → Action T A → Type 0
  Alike P m n = Simulates R P m n

  unless_idle-Alike :
      (f : ℕ → Action S ℕ) (g : ℕ → Action T ℕ) (cs : ℕ)
      → ((cs : ℕ) → Alike (Any R) (f cs) (g cs))
      → Alike (Any R) (unless_idle D f cs) (unless_idle E g cs)
  unfolding unless_idle
  unless_idle-Alike f g cs k =
      elim (bit_and cs busy_mask == 0)
        as (λ b.
          Alike (Any R) (elim b [ true ↦ pure cs | false ↦ f cs ])
            (elim b [ true ↦ pure cs | false ↦ g cs ])) [
              | true ↦ pure-Simulates R cs tt
              | false ↦ k cs
            ]

  poll-Alike : (n last : ℕ) → Alike (Any R) (poll D n last) (poll E n last)
  unfolding poll
  poll-Alike zero last = pure-Simulates R last tt
  poll-Alike (suc n) last =
      bind-Simulates R (related.reads abstractcs)
        (λ cs h. unless_idle-Alike (poll D n) (poll E n) cs (poll-Alike n))

  finish_wait-Alike : (cs : ℕ) → Alike (Any R) (finish_wait D cs) (finish_wait E cs)
  unfolding finish_wait
  finish_wait-Alike cs =
      if-Simulates R _
        (if-Simulates R _ (pure-Simulates R tt tt) (
          then-Simulates R (ignore-Simulates R (related.writes abstractcs 0x700 (omega arith)))
            (fail-Simulates R target)))
        (fail-Simulates R target)

  wait-Alike : Alike (Any R) (wait D) (wait E)
  unfolding wait wait_for
  wait-Alike = bind-Simulates R (poll-Alike timeout_us 0) (λ cs h. finish_wait-Alike cs)

  issue-Alike :
      (command value : ℕ) (transfer_in : Bool)
      → command < 2 ^ 32
      → value < 2 ^ 32
      → Alike (Any R) (issue D command value transfer_in) (issue E command value transfer_in)
  unfolding issue
  issue-Alike command value transfer_in c v =
      then-Simulates R
        (if-Simulates R transfer_in (related.writes data0 value v) (pure-Simulates R tt tt))
        (then-Simulates R (related.writes dmcommand command c) wait-Alike)

  command_out-Alike :
      (command value : ℕ) (transfer_in : Bool)
      → command < 2 ^ 32
      → value < 2 ^ 32
      → Alike
          (Any R)
          (command_out D command value transfer_in)
          (command_out E command value transfer_in)
  unfolding command_out
  command_out-Alike = issue-Alike

  command_in-Alike :
      (command value : ℕ) (transfer_in : Bool)
      → command < 2 ^ 32
      → value < 2 ^ 32
      → Alike Word (command_in D command value transfer_in) (command_in E command value transfer_in)
  unfolding command_in
  command_in-Alike command value transfer_in c v =
      then-Simulates R (issue-Alike command value transfer_in c v) (related.reads data0)

  load_words-Alike :
      (ws : List ℕ) (i : ℕ) → All Word ws → Alike (Any R) (load_words D ws i) (load_words E ws i)
  unfolding load_words
  load_words-Alike [] i h = pure-Simulates R tt tt
  load_words-Alike (w ∷ ws) i h =
      then-Simulates R (related.writes _ w h.0) (load_words-Alike ws (i + 1) h.1)

  load_program-Alike :
      (program : List ℕ)
      → All Word program
      → Alike (Any R) (load_program D program) (load_program E program)
  unfolding load_program
  load_program-Alike program h = if-Simulates R _ (fail-Simulates R usage) (
      then-Simulates R (related.writes abstractauto 0 (omega arith)) (load_words-Alike program 0 h))

  run_write-Alike :
      (program : List ℕ) (address value : ℕ)
      → All Word program
      → address < 2 ^ 32
      → value < 2 ^ 32
      → Alike (Any R) (run_write D program address value) (run_write E program address value)
  unfolding run_write gpr_write
  run_write-Alike program address value h a v = then-Simulates R (load_program-Alike program h) (
      then-Simulates R (command_out-Alike _ address true (omega arith) a)
        (command_out-Alike _ value true (omega arith) v))

  run_read-Alike :
      (program : List ℕ) (address : ℕ)
      → All Word program
      → address < 2 ^ 32
      → Alike Word (run_read D program address) (run_read E program address)
  unfolding run_read gpr_read
  run_read-Alike program address h a =
      then-Simulates R (run_write-Alike program address 0 h a (omega arith))
        (command_in-Alike _ 0 false (omega arith) (omega arith))

  pub write32-Alike :
      (address value : ℕ)
      → address < 2 ^ 32
      → value < 2 ^ 32
      → Alike (Any R) (write32 D address value) (write32 E address value)
  unfolding write32 write_program rv_store rv_ebreak
  write32-Alike address value a v = run_write-Alike _ address value (omega arith) a v

  -- The programs of the two sizes that a read uses.
  pub read_sized-Alike :
      (size address : ℕ)
      → size ≤ 2
      → address < 2 ^ 32
      → Alike Word (read_sized D size address) (read_sized E size address)
  unfolding read_sized read_program rv_load rv_ebreak
  read_sized-Alike zero address h a = run_read-Alike _ address (omega arith) a
  read_sized-Alike (suc zero) address h a = run_read-Alike _ address (omega arith) a
  read_sized-Alike (suc (suc zero)) address h a = run_read-Alike _ address (omega arith) a
  read_sized-Alike (suc (suc (suc n))) address h a = absurd (omega arith)

  pub read32-Alike :
      (address : ℕ) → address < 2 ^ 32 → Alike Word (read32 D address) (read32 E address)
  unfolding read32
  read32-Alike address a = read_sized-Alike 2 address (omega arith) a
