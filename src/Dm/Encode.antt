-- ===== src/Dm/Encode.antt =====
-- Instruction encoding (src/dm.c). An `int32_t` immediate is its bit pattern.
pub mod Fields
use libopenwch_tools.Prelude.{
  ℕ, ◌+◌, ◌-◌, ◌*◌, ◌/◌, ◌%◌, ◌^◌, ◌<◌, bit_and, bit_or, ◌<<<◌, ◌>>>◌, u32, List, [], ◌∷◌, ◌==◌,
  if◌then◌else◌,
}

-- `wl_rv_store`; a shift is cut off to 32 bits where it can pass them.
unfoldable pub rv_store : ℕ → ℕ → ℕ → ℕ
rv_store size_log2 src base =
    let funct3 = bit_and size_log2 0x7 in
    let rs2 = bit_and src 0x1f <<< 20 in
    let rs1 = bit_and base 0x1f <<< 15 in bit_or (bit_or (bit_or (funct3 <<< 12) rs2) rs1) 0x23

-- `wl_rv_load`
unfoldable pub rv_load : ℕ → ℕ → ℕ → ℕ
rv_load funct3 dest base =
    let rs1 = bit_and base 0x1f <<< 15 in
    let rd = bit_and dest 0x1f <<< 7 in
    bit_or (bit_or (bit_or (bit_and funct3 0x7 <<< 12) rs1) rd) 0x03

-- `wl_rv_addi`
pub rv_addi : ℕ → ℕ → ℕ → ℕ
rv_addi dest src immediate =
    let imm = bit_and immediate 0xfff in
    let rs1 = bit_and src 0x1f <<< 15 in
    let rd = bit_and dest 0x1f <<< 7 in bit_or (bit_or (bit_or (u32 (imm <<< 20)) rs1) rd) 0x13

-- `wl_rv_bne`
pub rv_bne : ℕ → ℕ → ℕ → ℕ
rv_bne src1 src2 immediate =
    let imm12 = bit_and (immediate >>> 12) 0x1 in
    let imm11 = bit_and (immediate >>> 11) 0x1 in
    let imm10_5 = bit_and (immediate >>> 5) 0x3f in
    let imm4_1 = bit_and (immediate >>> 1) 0xf in
    let rs1 = bit_and src1 0x1f <<< 15 in
    let rs2 = bit_and src2 0x1f <<< 20 in
    bit_or
      (bit_or
        (bit_or
          (bit_or (bit_or (bit_or (bit_or (u32 (imm12 <<< 31)) (u32 (imm10_5 <<< 25))) rs2) rs1)
            (0x1 <<< 12))
          (imm4_1 <<< 8))
        (imm11 <<< 7))
      0x63

-- `wl_rv_ebreak`
unfoldable pub rv_ebreak : ℕ
rv_ebreak = 0x00100073

-- The table `write_programs` that `build_programs` fills: the store of a size (0 for a byte, 1 for a
-- halfword, 2 for a word), and ebreak.
unfoldable pub write_program : ℕ → List ℕ
unfolding rv_store rv_ebreak
write_program size = rv_store size 8 9 ∷ rv_ebreak ∷ []

-- The table `read_programs`: lw, lh or lbu, and ebreak.
unfoldable pub read_program : ℕ → List ℕ
unfolding rv_load rv_ebreak
read_program size =
    rv_load (if size == 2 then 0x2 else if size == 1 then 0x1 else 0x4) 8 9 ∷ rv_ebreak ∷ []
