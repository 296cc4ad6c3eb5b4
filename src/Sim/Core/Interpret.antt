-- ===== src/Sim/Core/Interpret.antt =====
-- What the interpreter of the simulated core (tests/sim_programmer.c) reads in the instructions that
-- src/dm.c encodes.
use libopenwch_tools.Prelude.{
  ℕ, suc, ◌+◌, ◌-◌, inl, inr, bit_xor, sub32, sym, Bool-cases, ltb, ap, ◌*◌, ◌/◌, ◌%◌, ◌^◌, ◌<◌,
  ◌≤◌, ◌≡◌, refl, ◌∙◌, ◌==◌, arith, bit_and, if◌then◌else◌, u32, ◌>>>◌,
}
use libopenwch_tools.Prelude.Bits.{bit_and_mask, bit_or_field, bit_or_multiple}
use libopenwch_tools.Dm.Encode.{rv_store, rv_load, rv_addi, rv_bne}
use libopenwch_tools.Dm.Encode.Fields.{
  rv_store-fields, rv_load-fields, rv_addi-fields, rv_bne-fields, rv_bne-sum, opcode, rd, funct3,
  rs1, rs2,
}
use libopenwch_tools.Prelude.Bits.Sign.{bit_xor-clear, bit_xor-set}
use native.Mathlib.Nat.{pow-suc, pow-le-pow_right}
use libopenwch_tools.Sim.Core.{
  Core, on, execute, execute_store, execute_load, execute_addi, execute_bne, store, loaded,
  after_load, extended, set_gpr, branch_immediate,
}

-- The interpreter's fields of a word.
opcode_lem : (w : ℕ) → bit_and w 0x7f ≡ opcode w
opcode_lem w = bit_and_mask 7 w

rd_lem : (w : ℕ) → bit_and (w >>> 7) 0x1f ≡ rd w
rd_lem w = bit_and_mask 5 (w >>> 7)

funct3_lem : (w : ℕ) → bit_and (w >>> 12) 0x7 ≡ funct3 w
funct3_lem w = bit_and_mask 3 (w >>> 12)

rs1_lem : (w : ℕ) → bit_and (w >>> 15) 0x1f ≡ rs1 w
rs1_lem w = bit_and_mask 5 (w >>> 15)

rs2_lem : (w : ℕ) → bit_and (w >>> 20) 0x1f ≡ rs2 w
rs2_lem w = bit_and_mask 5 (w >>> 20)

-- The next instruction.
abbrev pub stepped : Core → Core
stepped c = record c { pc = u32 (c.pc + 4) }

module _ (c : Core) where
  pub execute-rv_store :
      (size src base : ℕ)
      → size ≤ 2
      → src < 32
      → base < 32
      → execute (rv_store size src base) c
        ≡ on (stepped (store size (u32 (c.gpr base + 0)) (c.gpr src) c))
  unfolding execute execute_store
  execute-rv_store size src base s₀ s₁ s₂ =
      let w = rv_store size src base in
      let f = rv_store-fields size src base in
      let o : bit_and w 0x7f ≡ 0x23 = opcode_lem w ∙ f.0 in
      let r1 : bit_and (w >>> 15) 0x1f ≡ base = rs1_lem w ∙ f.2 ∙ omega arith in
      let r2 : bit_and (w >>> 20) 0x1f ≡ src = rs2_lem w ∙ f.3 ∙ omega arith in
      let g : bit_and (w >>> 12) 0x7 ≡ size = funct3_lem w ∙ f.1 ∙ omega arith in
      let z : bit_and size 0x3 ≡ size = bit_and_mask 2 size ∙ omega arith in
      let low : bit_and (w >>> 7) 0x1f ≡ 0 = rd_lem w ∙ omega (arith, f.4) in
      let high : w >>> 25 ≡ 0 = omega (arith, f.4) in rw (o, r1, r2, g, z, low, high) refl

  pub execute-rv_load :
      (size dest base : ℕ)
      → size ≤ 4
      → dest < 32
      → base < 32
      → execute (rv_load size dest base) c
        ≡ on (
            let value = loaded (bit_and size 0x3) (u32 (c.gpr base + 0)) c in
            record (after_load (bit_and size 0x3) (u32 (c.gpr base + 0)) c) {
              gpr = set_gpr c.gpr dest (if size == 0x4 then bit_and value 0xff else value);
              pc = u32 (c.pc + 4);
            })
  unfolding execute execute_load after_load
  execute-rv_load size dest base s₀ s₁ s₂ =
      let w = rv_load size dest base in
      let f = rv_load-fields size dest base in
      let o : bit_and w 0x7f ≡ 0x03 = opcode_lem w ∙ f.0 in
      let r1 : bit_and (w >>> 15) 0x1f ≡ base = rs1_lem w ∙ f.2 ∙ omega arith in
      let d : bit_and (w >>> 7) 0x1f ≡ dest = rd_lem w ∙ f.3 ∙ omega arith in
      let g : bit_and (w >>> 12) 0x7 ≡ size = funct3_lem w ∙ f.1 ∙ omega arith in
      let i : w >>> 20 ≡ 0 = f.4 in rw (o, r1, d, g, i) refl

  pub execute-rv_addi :
      (dest src immediate : ℕ)
      → dest < 32
      → src < 32
      → execute (rv_addi dest src immediate) c
        ≡ on (record c {
          gpr = set_gpr c.gpr dest (u32 (c.gpr src + extended (immediate % 2 ^ 12) 12));
          pc = u32 (c.pc + 4);
        })
  unfolding execute execute_addi
  execute-rv_addi dest src immediate s₁ s₂ =
      let w = rv_addi dest src immediate in
      let f = rv_addi-fields dest src immediate in
      let o : bit_and w 0x7f ≡ 0x13 = opcode_lem w ∙ f.0 in
      let r1 : bit_and (w >>> 15) 0x1f ≡ src = rs1_lem w ∙ f.2 ∙ omega arith in
      let d : bit_and (w >>> 7) 0x1f ≡ dest = rd_lem w ∙ f.3 ∙ omega arith in
      let i : w >>> 20 ≡ immediate % 2 ^ 12 = f.4 in rw (o, r1, d, i) refl

  pub execute-rv_bne :
      (src1 src2 offset : ℕ)
      → src1 < 32
      → src2 < 32
      → execute (rv_bne src1 src2 offset) c
        ≡ on (record c {
          pc = u32 (
              c.pc
              + (if c.gpr src1 == c.gpr src2
                  then 4
                  else extended (branch_immediate (rv_bne src1 src2 offset)) 13));
        })
  unfolding execute execute_bne
  execute-rv_bne src1 src2 offset s₁ s₂ =
      let w = rv_bne src1 src2 offset in
      let f = rv_bne-fields src1 src2 offset in
      let o : bit_and w 0x7f ≡ 0x63 = opcode_lem w ∙ f.0 in
      let r1 : bit_and (w >>> 15) 0x1f ≡ src1 = rs1_lem w ∙ f.2 ∙ omega arith in
      let r2 : bit_and (w >>> 20) 0x1f ≡ src2 = rs2_lem w ∙ f.3 ∙ omega arith in rw (o, r1, r2) refl

-- The interpreter's `sign_extend` of a value of `suc k` bits.
pub extended_lem :
    (k v : ℕ)
    → v < 2 ^ suc k
    → k < 32
    → extended v (suc k) ≡ (if ltb v (2 ^ k) then v else v + (2 ^ 32 - 2 ^ suc k))
unfolding extended
extended_lem k v fits small =
    let p = pow-suc 2 k in
    let big : 2 ^ suc k ≤ 2 ^ 32 =
      pow-le-pow_right {n = 2} (omega arith) {i = suc k} {j = 32} (omega arith) in
    let one : 1 * 2 ^ k ≡ 2 ^ k = omega arith in
    let last : suc k - 1 ≡ k = omega arith in
    (λ i. sub32 (bit_xor v (1 * 2 ^ last i)) (1 * 2 ^ last i))
    ∙ ap (λ m. sub32 (bit_xor v m) m) one
    ∙ elim (Bool-cases (ltb v (2 ^ k))) [
      | inl e ↦
          ap (λ x. sub32 x (2 ^ k)) (bit_xor-clear k v (ground arith))
          ∙ rw e (omega (arith, p, big))
      | inr e ↦
          let w : v - 2 ^ k + 2 ^ k ≡ v = ground arith in
          let x : bit_xor v (2 ^ k) ≡ v - 2 ^ k =
            ap (λ u. bit_xor u (2 ^ k)) (sym w) ∙ bit_xor-set k (v - 2 ^ k) (ground (arith, p)) in
          ap (λ y. sub32 y (2 ^ k)) x ∙ rw e (ground (arith, p, big))
    ]

-- The immediate that the interpreter reads in a branch: bit 11 of the offset ends up as bit 0.
pub branch_immediate-sum :
    (src1 src2 i : ℕ)
    → branch_immediate (rv_bne src1 src2 i)
      ≡ i / 2 ^ 12 % 2 * 2 ^ 12 + i / 2 ^ 5 % 64 * 2 ^ 5 + i / 2 % 16 * 2 + i / 2 ^ 11 % 2
unfolding branch_immediate
branch_immediate-sum src1 src2 i =
    let w = rv_bne src1 src2 i in
    let e = rv_bne-sum src1 src2 i in
    let i12 = i / 2 ^ 12 % 2 in
    let i10 = i / 2 ^ 5 % 64 in
    let i4 = i / 2 % 16 in
    let i11 = i / 2 ^ 11 % 2 in
    let a : w >>> 31 ≡ i12 = omega arith in
    let b : bit_and (w >>> 25) 0x3f ≡ i10 = bit_and_mask 6 (w >>> 25) ∙ omega arith in
    let d : bit_and (w >>> 8) 0xf ≡ i4 = bit_and_mask 4 (w >>> 8) ∙ omega arith in
    let f : bit_and (w >>> 7) 0x1 ≡ i11 = bit_and_mask 1 (w >>> 7) ∙ omega arith in
    rw (a, b, d, f)
      (rw (bit_or_field 5 6 (i12 * 2 ^ 12) i10 (omega arith) (omega arith)) (
        rw (bit_or_field 1 4 (i12 * 2 ^ 12 + i10 * 2 ^ 5) i4 (omega arith) (omega arith)) (
          bit_or_multiple 1 (i12 * 2 ^ 12 + i10 * 2 ^ 5 + i4 * 2 ^ 1) i11 (omega arith)
            (omega arith))))
