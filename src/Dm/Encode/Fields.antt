-- ===== src/Dm/Encode/Fields.antt =====
-- The instruction words, read back field by field as the RISC-V base encoding lays them out.
use libopenwch_tools.Prelude.{ℕ, ◌+◌, ◌*◌, ◌/◌, ◌%◌, ◌^◌, ◌≡◌, arith, ◌>>>◌, u32}
use libopenwch_tools.Prelude.Bits.{bit_or_multiple, bit_or_field, bit_and_mask}
use libopenwch_tools.Dm.Encode.{rv_store, rv_load, rv_addi, rv_bne}

-- The fields at bits 6:0, 11:7, 14:12, 19:15, 24:20 and 31:25.
abbrev pub opcode : ℕ → ℕ
opcode w = w % 128

abbrev pub rd : ℕ → ℕ
rd w = w / 2 ^ 7 % 32

abbrev pub funct3 : ℕ → ℕ
funct3 w = w / 2 ^ 12 % 8

abbrev pub rs1 : ℕ → ℕ
rs1 w = w / 2 ^ 15 % 32

abbrev pub rs2 : ℕ → ℕ
rs2 w = w / 2 ^ 20 % 32

abbrev pub funct7 : ℕ → ℕ
funct7 w = w / 2 ^ 25

-- The immediates of the S, I and B types.
abbrev pub imm_s : ℕ → ℕ
imm_s w = funct7 w * 32 + rd w

abbrev pub imm_i : ℕ → ℕ
imm_i w = w / 2 ^ 20

abbrev pub imm_b : ℕ → ℕ
imm_b w =
    w / 2 ^ 31 * 2 ^ 12 + w / 2 ^ 7 % 2 * 2 ^ 11 + w / 2 ^ 25 % 64 * 2 ^ 5 + w / 2 ^ 8 % 16 * 2

-- The words as sums of their fields.
rv_store-sum :
    (size src base : ℕ)
    → rv_store size src base ≡ src % 32 * 2 ^ 20 + base % 32 * 2 ^ 15 + size % 8 * 2 ^ 12 + 0x23
unfolding rv_store
rv_store-sum size src base = rw (bit_and_mask 3 size) (
    rw (bit_and_mask 5 src) (
      rw (bit_and_mask 5 base) (
        rw (bit_or_field 20 5 (size % 8 * 2 ^ 12) (src % 32) (omega arith) (omega arith)) (
          rw
            (bit_or_field 15 5 (size % 8 * 2 ^ 12 + src % 32 * 2 ^ 20) (base % 32) (omega arith)
              (omega arith))
            (rw
              (bit_or_multiple 7 (size % 8 * 2 ^ 12 + src % 32 * 2 ^ 20 + base % 32 * 2 ^ 15) 0x23
                (omega arith) (omega arith))
              (omega arith))))))

-- Every operand: the word is a store with these registers and this size, and a zero offset.
pub rv_store-fields :
    (size src base : ℕ)
    → let w = rv_store size src base in
      (opcode w ≡ 0x23)
      × (funct3 w ≡ size % 8)
      × (rs1 w ≡ base % 32)
      × (rs2 w ≡ src % 32)
      × (imm_s w ≡ 0)
rv_store-fields size src base = let e = rv_store-sum size src base in rw e (omega arith)

rv_load-sum :
    (size dest base : ℕ)
    → rv_load size dest base ≡ base % 32 * 2 ^ 15 + size % 8 * 2 ^ 12 + dest % 32 * 2 ^ 7 + 0x03
unfolding rv_load
rv_load-sum size dest base = rw (bit_and_mask 3 size) (
    rw (bit_and_mask 5 dest) (
      rw (bit_and_mask 5 base) (
        rw (bit_or_field 15 5 (size % 8 * 2 ^ 12) (base % 32) (omega arith) (omega arith)) (
          rw
            (bit_or_field 7 5 (size % 8 * 2 ^ 12 + base % 32 * 2 ^ 15) (dest % 32) (omega arith)
              (omega arith))
            (rw
              (bit_or_multiple 7 (size % 8 * 2 ^ 12 + base % 32 * 2 ^ 15 + dest % 32 * 2 ^ 7) 0x03
                (omega arith) (omega arith))
              (omega arith))))))

-- The word is a load of this kind with these registers, and a zero offset.
pub rv_load-fields :
    (size dest base : ℕ)
    → let w = rv_load size dest base in
      (opcode w ≡ 0x03)
      × (funct3 w ≡ size % 8)
      × (rs1 w ≡ base % 32)
      × (rd w ≡ dest % 32)
      × (imm_i w ≡ 0)
rv_load-fields size dest base = let e = rv_load-sum size dest base in rw e (omega arith)

rv_addi-sum :
    (dest src immediate : ℕ)
    → rv_addi dest src immediate
      ≡ immediate % 2 ^ 12 * 2 ^ 20 + src % 32 * 2 ^ 15 + dest % 32 * 2 ^ 7 + 0x13
unfolding rv_addi
rv_addi-sum dest src immediate =
    let fits : u32 (immediate % 2 ^ 12 * 2 ^ 20) ≡ immediate % 2 ^ 12 * 2 ^ 20 = omega arith in
    rw (bit_and_mask 12 immediate) (
      rw (bit_and_mask 5 dest) (
        rw (bit_and_mask 5 src) (
          rw fits (
            rw
              (bit_or_field 15 5 (immediate % 2 ^ 12 * 2 ^ 20) (src % 32) (omega arith)
                (omega arith))
              (rw
                (bit_or_field 7 5 (immediate % 2 ^ 12 * 2 ^ 20 + src % 32 * 2 ^ 15) (dest % 32)
                  (omega arith) (omega arith))
                (bit_or_multiple 7
                  (immediate % 2 ^ 12 * 2 ^ 20 + src % 32 * 2 ^ 15 + dest % 32 * 2 ^ 7) 0x13
                  (omega arith) (omega arith)))))))

-- The word is an addition of the low 12 bits of the immediate.
pub rv_addi-fields :
    (dest src immediate : ℕ)
    → let w = rv_addi dest src immediate in
      (opcode w ≡ 0x13)
      × (funct3 w ≡ 0)
      × (rs1 w ≡ src % 32)
      × (rd w ≡ dest % 32)
      × (imm_i w ≡ immediate % 2 ^ 12)
rv_addi-fields dest src immediate = let e = rv_addi-sum dest src immediate in rw e (omega arith)

-- A branch offset is even, and its bits are spread over the word.
pub rv_bne-sum :
    (src1 src2 i : ℕ)
    → rv_bne src1 src2 i
      ≡ i / 2 ^ 12 % 2 * 2 ^ 31
        + i / 2 ^ 5 % 64 * 2 ^ 25
        + src2 % 32 * 2 ^ 20
        + src1 % 32 * 2 ^ 15
        + 2 ^ 12
        + i / 2 % 16 * 2 ^ 8
        + i / 2 ^ 11 % 2 * 2 ^ 7
        + 0x63
unfolding rv_bne
rv_bne-sum src1 src2 i =
    let i12 = i / 2 ^ 12 % 2 in
    let i10 = i / 2 ^ 5 % 64 in
    let high = i12 * 2 ^ 31 + i10 * 2 ^ 25 in
    let regs = high + src2 % 32 * 2 ^ 20 + src1 % 32 * 2 ^ 15 in
    let low = regs + 1 * 2 ^ 12 + i / 2 ^ 1 % 16 * 2 ^ 8 in
    let fits12 : u32 (i12 * 2 ^ 31) ≡ i12 * 2 ^ 31 = omega arith in
    let fits10 : u32 (i10 * 2 ^ 25) ≡ i10 * 2 ^ 25 = omega arith in
    rw (bit_and_mask 1 (i >>> 12), bit_and_mask 1 (i >>> 11), bit_and_mask 6 (i >>> 5))
      (rw (bit_and_mask 4 (i >>> 1), bit_and_mask 5 src1, bit_and_mask 5 src2)
        (rw (fits12, fits10)
          (rw (bit_or_field 25 6 (i12 * 2 ^ 31) i10 (omega arith) (omega arith)) (
            rw (bit_or_field 20 5 high (src2 % 32) (omega arith) (omega arith)) (
              rw
                (bit_or_field 15 5 (high + src2 % 32 * 2 ^ 20) (src1 % 32) (omega arith)
                  (omega arith))
                (rw (bit_or_field 12 3 regs 1 (omega arith) (omega arith)) (
                  rw
                    (bit_or_field 8 4 (regs + 1 * 2 ^ 12) (i / 2 ^ 1 % 16) (omega arith)
                      (omega arith))
                    (rw (bit_or_field 7 1 low (i / 2 ^ 11 % 2) (omega arith) (omega arith)) (
                      rw
                        (bit_or_multiple 7 (low + i / 2 ^ 11 % 2 * 2 ^ 7) 0x63 (omega arith)
                          (omega arith))
                        (omega arith))))))))))

-- The word is a branch on inequality of these registers, by the low 13 bits of the immediate without
-- the lowest, which an offset does not have.
pub rv_bne-fields :
    (src1 src2 immediate : ℕ)
    → let w = rv_bne src1 src2 immediate in
      (opcode w ≡ 0x63)
      × (funct3 w ≡ 1)
      × (rs1 w ≡ src1 % 32)
      × (rs2 w ≡ src2 % 32)
      × (imm_b w ≡ immediate % 2 ^ 13 / 2 * 2)
rv_bne-fields src1 src2 immediate = let e = rv_bne-sum src1 src2 immediate in rw e (omega arith)
