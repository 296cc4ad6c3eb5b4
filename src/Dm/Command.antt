-- ===== src/Dm/Command.antt =====
-- Abstract commands: registers, CSRs and the program buffer (src/dm.c).
pub mod Wait
use libopenwch_tools.Prelude.{
  ℕ, zero, suc, ◌+◌, ◌*◌, ◌^◌, Bool, true, false, List, [], ◌∷◌, ◌==◌, ltb, if◌then◌else◌, length,
  bit_and, bit_or, u8,
}
use libopenwch_tools.Status.{Action, ok, err, usage, target, ⊤, pure, fail, ignore, ◌>>=◌, ◌>>◌}

-- `wl_linke_dmi_read` and `wl_linke_dmi_write`, as this layer uses them.
pub record Dmi (S : Type 0) : Type 0 where
  pub read : ℕ → Action S ℕ
  pub write : ℕ → ℕ → Action S ⊤

abbrev pub data0 : ℕ
data0 = 0x04

abbrev pub abstractcs : ℕ
abstractcs = 0x16

abbrev pub dmcommand : ℕ
dmcommand = 0x17

abbrev pub abstractauto : ℕ
abstractauto = 0x18

abbrev pub progbuf0 : ℕ
progbuf0 = 0x20

abbrev pub dcsr : ℕ
dcsr = 0x7b0

abbrev pub dpc : ℕ
dpc = 0x7b1

abbrev pub progbuf_words : ℕ
progbuf_words = 8

abbrev pub gpr_base : ℕ
gpr_base = 0x0020_0000

abbrev pub transfer : ℕ
transfer = 0x0002_0000

abbrev pub cmd_write : ℕ
cmd_write = 0x0001_0000

abbrev pub postexec : ℕ
postexec = 0x0004_0000

-- `WL_DM_GPR_REGNO`
abbrev pub gpr_regno : ℕ → ℕ
gpr_regno n = 0x1000 + bit_and n 0x1f

abbrev pub busy_mask : ℕ
busy_mask = 0x1000

abbrev pub cmderr_mask : ℕ
cmderr_mask = 0x700

-- `WL_DM_TIMEOUT_US`, the bound on the number of polls.
abbrev pub timeout_us : ℕ
timeout_us = 2_000_000

module _ {S : Type 0} (D : Dmi S) where
  -- The end of a round: out of the loop, or on to the next.
  unfoldable pub unless_idle : (ℕ → Action S ℕ) → ℕ → Action S ℕ
  unless_idle next cs = elim (bit_and cs busy_mask == 0) [ true ↦ pure cs | false ↦ next cs ]

  -- The polling loop of `dm_wait`, with the polls that are left and the last value read.
  unfoldable pub poll : ℕ → ℕ → Action S ℕ
  unfolding unless_idle
  poll zero last = pure last
  poll (suc spins) last = do cs ← D.read abstractcs; unless_idle (poll spins) cs

  -- What `dm_wait` makes of the last value read.
  unfoldable pub finish_wait : ℕ → Action S ⊤
  finish_wait cs =
      if bit_and cs busy_mask == 0
      then (if bit_and cs cmderr_mask == 0
          then pure tt
          else (do ignore (D.write abstractcs 0x700); fail target))
      else fail target

  -- `dm_wait`, with the bound on the polls as an argument.
  unfoldable pub wait_for : ℕ → Action S ⊤
  unfolding finish_wait
  wait_for spins = do cs ← poll spins 0; finish_wait cs

  -- `dm_wait`
  unfoldable pub wait : Action S ⊤
  wait = wait_for timeout_us

  -- `dm_command` up to the end of the wait; `transfer_in` says that DATA0 is written first.
  unfoldable pub issue : ℕ → ℕ → Bool → Action S ⊤
  issue command value transfer_in = do
    if transfer_in then D.write data0 value else pure tt
    D.write dmcommand command
    wait

  -- `dm_command` where the caller takes no result, and where it takes one.
  unfoldable pub command_out : ℕ → ℕ → Bool → Action S ⊤
  unfolding issue
  command_out command value transfer_in = issue command value transfer_in

  unfoldable pub command_in : ℕ → ℕ → Bool → Action S ℕ
  unfolding issue
  command_in command value transfer_in = do issue command value transfer_in; D.read data0

  -- `wl_dm_gpr_write`
  unfoldable pub gpr_write : ℕ → ℕ → Action S ⊤
  unfolding command_out
  gpr_write reg value =
      if ltb 31 reg
      then fail usage
      else command_out (bit_or (bit_or (bit_or gpr_base transfer) cmd_write) (gpr_regno reg)) value
          true

  -- `wl_dm_gpr_read`
  unfoldable pub gpr_read : ℕ → Action S ℕ
  unfolding command_in
  gpr_read reg =
      if ltb 31 reg
      then fail usage
      else command_in (bit_or (bit_or gpr_base transfer) (gpr_regno reg)) 0 false

  -- `wl_dm_pc_read` and `wl_dm_pc_write`
  unfoldable pub pc_read : Action S ℕ
  unfolding command_in
  pc_read = command_in (bit_or (bit_or gpr_base transfer) dpc) 0 false

  unfoldable pub pc_write : ℕ → Action S ⊤
  unfolding command_out
  pc_write value = command_out (bit_or (bit_or (bit_or gpr_base transfer) cmd_write) dpc) value true

  -- `dm_csr_access`, for a read and for a write.
  unfoldable pub csr_read : ℕ → Action S ℕ
  unfolding command_in
  csr_read csr = command_in (bit_or (bit_or gpr_base transfer) csr) 0 false

  unfoldable pub csr_write : ℕ → ℕ → Action S ⊤
  unfolding command_out
  csr_write csr value =
      command_out (bit_or (bit_or (bit_or gpr_base transfer) csr) cmd_write) value true

  -- `wl_dm_dcsr_read` and `wl_dm_dcsr_write`
  unfoldable pub dcsr_read : Action S ℕ
  unfolding csr_read
  dcsr_read = csr_read dcsr

  unfoldable pub dcsr_write : ℕ → Action S ⊤
  unfolding csr_write
  dcsr_write value = csr_write dcsr value

  -- The loop of `dm_load_program` from word `i`.
  unfoldable pub load_words : List ℕ → ℕ → Action S ⊤
  load_words [] i = pure tt
  load_words (w ∷ ws) i = do D.write (u8 (progbuf0 + i)) w; load_words ws (i + 1)

  -- `dm_load_program`
  unfoldable pub load_program : List ℕ → Action S ⊤
  unfolding load_words
  load_program program =
      if ltb progbuf_words (length program)
      then fail usage
      else (do D.write abstractauto 0; load_words program 0)

  -- `dm_run` without a result: x9 is the address, x8 the value, and then the program runs.
  unfoldable pub run_write : List ℕ → ℕ → ℕ → Action S ⊤
  unfolding load_program gpr_write command_out
  run_write program address value = do
    load_program program
    gpr_write 9 address
    command_out
        (bit_or (bit_or (bit_or (bit_or gpr_base transfer) cmd_write) postexec) (gpr_regno 8)) value
        true

  -- `dm_run` with x8 read back.
  unfoldable pub run_read : List ℕ → ℕ → Action S ℕ
  unfolding run_write gpr_read
  run_read program address = do run_write program address 0; gpr_read 8
