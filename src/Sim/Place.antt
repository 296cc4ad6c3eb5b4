-- ===== src/Sim/Place.antt =====
-- Addresses of the flash in the simulated target's memory map.
use libopenwch_tools.Prelude.{ℕ, ◌-◌, ◌<◌, ◌≤◌, ◌≡◌, ◌∙◌, true, false, arith, bit_and}
use libopenwch_tools.Prelude.Bits.{bit_and_mask, bit_and_high}
use libopenwch_tools.Sim.{is_ctrl, is_flash, flash_offset}

module _ (address : ℕ) (low : 0x0800_0000 ≤ address) (high : address < 0x0900_0000) where
  pub is_ctrl_lem : is_ctrl address ≡ false
  unfolding is_ctrl
  is_ctrl_lem = ground arith

  pub is_flash_lem : is_flash address ≡ true
  unfolding is_flash
  is_flash_lem =
      let e : bit_and address 0xff00_0000 ≡ 0x0800_0000 =
        bit_and_high 24 32 address (omega arith) (omega arith) ∙ omega arith in
      ground arith

  pub flash_offset_lem : flash_offset address ≡ address - 0x0800_0000
  unfolding flash_offset
  flash_offset_lem = bit_and_mask 24 address ∙ omega arith
