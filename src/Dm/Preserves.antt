-- ===== src/Dm/Preserves.antt =====
-- The calls of src/dm.c keep what each register access keeps.
use libopenwch_tools.Prelude.{
  ℕ, zero, suc, List, [], ◌∷◌, Bool, Bool-cases, inl, inr, ◌==◌, bit_and,
}
use libopenwch_tools.Status.{Action}
use libopenwch_tools.Status.Preserves.{Preserves, preserves}
use libopenwch_tools.Dm.Command.{
  Dmi, finish_wait, poll, unless_idle, wait_for, wait, issue, command_out, command_in, gpr_write,
  gpr_read, pc_read, pc_write, csr_read, csr_write, dcsr_read, dcsr_write, load_words, load_program,
  run_write, run_read, busy_mask, timeout_us,
}
use libopenwch_tools.Dm.Memory.{
  read_bytes, read_words, read_block_by, write32, write16, write8, read_sized, read32, read_block,
}

-- Each register access keeps `P`.
pub record IsKept {S : Type 0} (P : S → Type 0) (D : Dmi S) : Type 0 where
  pub reads : (r : ℕ) → Preserves P (D.read r)
  pub writes : (r v : ℕ) → Preserves P (D.write r v)

module _ {S : Type 0} {P : S → Type 0} {read_sized : ℕ → ℕ → Action S ℕ}
    (kept : (size address : ℕ) → Preserves P (read_sized size address)) where
  read_bytes-Preserves : (n address : ℕ) → Preserves P (read_bytes read_sized n address)
  unfolding read_bytes
  read_bytes-Preserves zero address = search (preserves)
  read_bytes-Preserves (suc n) address = search (preserves, kept, read_bytes-Preserves n)

  read_words-Preserves : (n address : ℕ) → Preserves P (read_words read_sized n address)
  unfolding read_words
  read_words-Preserves zero address = read_bytes-Preserves zero address
  read_words-Preserves (suc zero) address = read_bytes-Preserves (suc zero) address
  read_words-Preserves (suc (suc zero)) address = read_bytes-Preserves (suc (suc zero)) address
  read_words-Preserves (suc (suc (suc zero))) address =
      read_bytes-Preserves (suc (suc (suc zero))) address
  read_words-Preserves (suc (suc (suc (suc n)))) address =
      search (preserves, kept, read_words-Preserves n)

  pub read_block_by-Preserves : (address n : ℕ) → Preserves P (read_block_by read_sized address n)
  unfolding read_block_by
  read_block_by-Preserves address zero = search (preserves)
  read_block_by-Preserves address (suc n) =
      let aligned = read_words-Preserves (suc n) address in
      let rest : (a : ℕ) → Preserves P (read_block_by read_sized a n) =
        λ a. read_block_by-Preserves a n in
      elim (Bool-cases (bit_and address 0x3 == 0)) [
        | inl e ↦ rw (read_block_by, e) aligned
        | inr e ↦ rw (read_block_by, e) (search (preserves, kept, rest))
      ]

module _ {S : Type 0} {P : S → Type 0} {D : Dmi S} (kept : IsKept P D) where
  finish_wait-Preserves : (cs : ℕ) → Preserves P (finish_wait D cs)
  unfolding finish_wait
  finish_wait-Preserves cs = search (preserves, kept.writes)

  unless_idle-Preserves :
      (next : ℕ → Action S ℕ) (cs : ℕ)
      → ((n : ℕ) → Preserves P (next n))
      → Preserves P (unless_idle D next cs)
  unfolding unless_idle
  unless_idle-Preserves next cs k = elim (Bool-cases (bit_and cs busy_mask == 0)) [
    | inl e ↦ rw (unless_idle, e) (search (preserves))
    | inr e ↦ rw (unless_idle, e) (k cs)
  ]

  poll-Preserves : (spins last : ℕ) → Preserves P (poll D spins last)
  unfolding poll
  poll-Preserves zero last = search (preserves)
  poll-Preserves (suc spins) last =
      search (preserves, kept.reads, unless_idle-Preserves, poll-Preserves spins)

  wait-Preserves : Preserves P (wait D)
  unfolding wait wait_for
  wait-Preserves = search (preserves, poll-Preserves timeout_us, finish_wait-Preserves)

  issue-Preserves : (command value : ℕ) (in_ : Bool) → Preserves P (issue D command value in_)
  unfolding issue
  issue-Preserves command value in_ = search (preserves, kept.writes, wait-Preserves)

  command_out-Preserves :
      (command value : ℕ) (in_ : Bool) → Preserves P (command_out D command value in_)
  unfolding command_out
  command_out-Preserves = issue-Preserves

  command_in-Preserves :
      (command value : ℕ) (in_ : Bool) → Preserves P (command_in D command value in_)
  unfolding command_in
  command_in-Preserves command value in_ = search (preserves, kept.reads, issue-Preserves)

  pub gpr_write-Preserves : (reg value : ℕ) → Preserves P (gpr_write D reg value)
  unfolding gpr_write
  gpr_write-Preserves reg value = search (preserves, command_out-Preserves)

  pub gpr_read-Preserves : (reg : ℕ) → Preserves P (gpr_read D reg)
  unfolding gpr_read
  gpr_read-Preserves reg = search (preserves, command_in-Preserves)

  pub pc_read-Preserves : Preserves P (pc_read D)
  unfolding pc_read
  pc_read-Preserves = search (command_in-Preserves)

  pub pc_write-Preserves : (value : ℕ) → Preserves P (pc_write D value)
  unfolding pc_write
  pc_write-Preserves value = search (command_out-Preserves)

  pub csr_read-Preserves : (csr : ℕ) → Preserves P (csr_read D csr)
  unfolding csr_read
  csr_read-Preserves csr = search (command_in-Preserves)

  pub csr_write-Preserves : (csr value : ℕ) → Preserves P (csr_write D csr value)
  unfolding csr_write
  csr_write-Preserves csr value = search (command_out-Preserves)

  pub dcsr_read-Preserves : Preserves P (dcsr_read D)
  unfolding dcsr_read
  dcsr_read-Preserves = search (csr_read-Preserves)

  pub dcsr_write-Preserves : (value : ℕ) → Preserves P (dcsr_write D value)
  unfolding dcsr_write
  dcsr_write-Preserves value = search (csr_write-Preserves)

  load_words-Preserves : (words : List ℕ) (i : ℕ) → Preserves P (load_words D words i)
  unfolding load_words
  load_words-Preserves [] i = search (preserves)
  load_words-Preserves (w ∷ words) i = search (preserves, kept.writes, load_words-Preserves words)

  load_program-Preserves : (program : List ℕ) → Preserves P (load_program D program)
  unfolding load_program
  load_program-Preserves program = search (preserves, kept.writes, load_words-Preserves)

  run_write-Preserves :
      (program : List ℕ) (address value : ℕ) → Preserves P (run_write D program address value)
  unfolding run_write
  run_write-Preserves program address value =
      search (preserves, load_program-Preserves, gpr_write-Preserves, command_out-Preserves)

  run_read-Preserves : (program : List ℕ) (address : ℕ) → Preserves P (run_read D program address)
  unfolding run_read
  run_read-Preserves program address = search (preserves, run_write-Preserves, gpr_read-Preserves)

  pub write32-Preserves : (address value : ℕ) → Preserves P (write32 D address value)
  unfolding write32
  write32-Preserves address value = search (run_write-Preserves)

  pub write16-Preserves : (address value : ℕ) → Preserves P (write16 D address value)
  unfolding write16
  write16-Preserves address value = search (run_write-Preserves)

  pub write8-Preserves : (address value : ℕ) → Preserves P (write8 D address value)
  unfolding write8
  write8-Preserves address value = search (run_write-Preserves)

  read_sized-Preserves : (size address : ℕ) → Preserves P (read_sized D size address)
  unfolding read_sized
  read_sized-Preserves size address = search (run_read-Preserves)

  pub read32-Preserves : (address : ℕ) → Preserves P (read32 D address)
  unfolding read32
  read32-Preserves address = search (read_sized-Preserves)

  pub read_block-Preserves : (address n : ℕ) → Preserves P (read_block D address n)
  unfolding read_block
  read_block-Preserves = read_block_by-Preserves read_sized-Preserves
