-- ===== src/Flash/Access.antt =====
-- What the flash algorithms use of the layers below: `wl_dm_read32`, `wl_dm_write32` and
-- `wl_dm_read_block` of src/dm.c.
use libopenwch_tools.Prelude.{ℕ, List}
use libopenwch_tools.Status.{Action, ⊤}
use libopenwch_tools.Dm.Command.{Dmi}
use libopenwch_tools.Dm.Memory

pub record Access (S : Type 0) : Type 0 where
  pub read32 : ℕ → Action S ℕ
  pub write32 : ℕ → ℕ → Action S ⊤
  pub read_block : ℕ → ℕ → Action S (List ℕ)

-- The debug module as such an access.
abbrev pub of_dmi : {S : Type 0} → Dmi S → Access S
of_dmi D = record {
  read32 = Memory.read32 D;
  write32 = Memory.write32 D;
  read_block = Memory.read_block D;
}
