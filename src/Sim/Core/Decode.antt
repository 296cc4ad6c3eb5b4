-- ===== src/Sim/Core/Decode.antt =====
-- The interpreter of the simulated core (tests/sim_programmer.c) on the instructions that src/dm.c
-- encodes.
use libopenwch_tools.Prelude.{
  ℕ, ◌+◌, ◌-◌, Bool, true, ltb, leb, ◌&&◌, ap, ◌*◌, ◌/◌, ◌%◌, ◌^◌, ◌<◌, ◌≤◌, ◌≡◌, refl, ◌∙◌, ◌==◌,
  arith, bit_and, if◌then◌else◌, false, ◌↔◌, u32,
}
use libopenwch_tools.Prelude.Bits.{bit_and_mask}
use libopenwch_tools.Dm.Encode.{rv_store, rv_load, rv_addi, rv_bne}
use libopenwch_tools.Sim.Core.Ram.{
  signed, value_at, width, store_lem, after_load_lem, loaded-value_at,
}
use libopenwch_tools.Sim.Core.{
  Core, on, execute, store, loaded, after_load, extended, set_gpr, branch_immediate,
}
use libopenwch_tools.Sim.Core.Interpret.{
  stepped, execute-rv_store, execute-rv_load, execute-rv_addi, execute-rv_bne, extended_lem,
  branch_immediate-sum,
}

-- A register takes a value, unless it is x0, and the core goes on at the next instruction.
abbrev pub with_register : Core → ℕ → ℕ → Core
with_register c reg value = record c {
  gpr = λ r. if r == reg then (if reg == 0 then 0 else value) else c.gpr r;
  pc = (c.pc + 4) % 2 ^ 32;
}

-- The offset with bit 11 moved to bit 0.
abbrev pub moved : ℕ → ℕ
moved offset = offset - offset / 2 ^ 11 % 2 * 2 ^ 11 + offset / 2 ^ 11 % 2

module _ (c : Core) where
  -- With a RAM of bytes between 0x20000000 and 0x40000000 and the address in a register, so that the access of
  -- 1, 2 or 4 bytes lies in the RAM, the simulated core executes what the encoder makes as the
  -- instruction of these operands: the store puts the lowest bytes of the other register there, the
  -- lowest first, and leaves every other byte; the load takes the bytes from there, a halfword sign
  -- extended and a byte not, and so does the load of an unsigned byte; and the addition adds the
  -- immediate's low 12 bits, sign extended. Nothing else changes but the register, x0 apart, and the
  -- program counter, which goes on at the next instruction.
  pub execute-encoded :
      (size a b immediate : ℕ)
      → size ≤ 2
      → a < 32
      → b < 32
      → 0x2000_0000 ≤ c.ram_offset
      → c.ram_offset + c.ram_size ≤ 0x4000_0000
      → c.ram_offset ≤ c.gpr b
      → c.gpr b + 2 ^ size ≤ c.ram_offset + c.ram_size
      → ((x : ℕ) → c.ram x < 256)
      → let o = c.gpr b - c.ram_offset in
        ((ram : ℕ → ℕ) × (execute (rv_store size a b) c
            ≡ on (record c { ram = ram; pc = (c.pc + 4) % 2 ^ 32 }))
          × ((x : ℕ)
              → ram x ≡ (
                  if leb o x && ltb x (o + 2 ^ size)
                  then c.gpr a / 2 ^ (8 * (x - o)) % 256
                  else c.ram x)))
        × (execute (rv_load size a b) c ≡ on (with_register c a (value_at size c.ram o)))
        × (execute (rv_load 4 a b) c ≡ on (with_register c a (c.ram o)))
        × (execute (rv_addi a b immediate) c
            ≡ on (with_register c a ((c.gpr b + signed 12 (immediate % 2 ^ 12)) % 2 ^ 32)))
  execute-encoded size a b immediate s₀ s₁ s₂ low high from fits bytes =
      let o : ℕ = c.gpr b - c.ram_offset in
      let at : u32 (c.gpr b + 0) ≡ c.gpr b = omega arith in
      let one : c.gpr b + 2 ^ 0 ≤ c.ram_offset + c.ram_size =
        omega (arith, width c (c.gpr b) low high from size s₀ fits) in
      let st = store_lem c (c.gpr b) low high from size s₀ fits (c.gpr a) in
      let z : bit_and size 0x3 ≡ size = bit_and_mask 2 size ∙ omega arith in
      let four : (size == 4) ≡ false = ground arith in
      let after = after_load_lem c (c.gpr b) low high from in
      let value = loaded-value_at c (c.gpr b) low high from in
      let byte = bytes o in
      (
        (
          st.0,
          execute-rv_store c size a b s₀ s₁ s₂
              ∙ (λ i. on (stepped (store size (at i) (c.gpr a) c)))
              ∙ ap (λ t. on (stepped t)) st.1,
          st.2,
        ),
        execute-rv_load c size a b (omega arith) s₁ s₂
            ∙ (λ i. on (load_run (z i) (four i) a (at i)))
            ∙ (λ i. on (loading (after size s₀ fits i) a (value size s₀ fits bytes i))),
        execute-rv_load c 4 a b (omega arith) s₁ s₂
            ∙ (λ i. on (load_run 0 true a (at i)))
            ∙ (λ i. on (
                loading (after 0 (omega arith) one i) a
                  (bit_and (value 0 (omega arith) one bytes i) 0xff)))
            ∙ ap (λ v. on (with_register c a v)) (bit_and_mask 8 (c.ram o) ∙ omega arith),
        execute-rv_addi c a b immediate s₁ s₂
            ∙ ap (λ v. on (with_register c a (u32 (c.gpr b + v))))
                (extended_lem 11 (immediate % 2 ^ 12) (omega arith) (omega arith)),
      )
    where
      -- The load of a value, given the core after the access.
      loading : Core → ℕ → ℕ → Core
      loading t reg value = record t { gpr = set_gpr c.gpr reg value; pc = u32 (c.pc + 4) }

      load_run : ℕ → Bool → ℕ → ℕ → Core
      load_run size unsigned reg address =
          loading (after_load size address c) reg
            (if unsigned then bit_and (loaded size address c) 0xff else loaded size address c)

  -- The simulated core executes the branch that the encoder makes of an even offset of 13 bits: where
  -- the registers are equal it goes on at the next instruction, and else at the signed offset whose
  -- bit 11 has been moved to bit 0. That is the place meant exactly where bit 11 of the offset is 0.
  pub execute-rv_bne_place :
      (src1 src2 offset : ℕ)
      → src1 < 32
      → src2 < 32
      → offset % 2 ≡ 0
      → offset < 2 ^ 13
      → (execute (rv_bne src1 src2 offset) c
          ≡ on (record c {
            pc =
                if c.gpr src1 == c.gpr src2
                then (c.pc + 4) % 2 ^ 32
                else (c.pc + signed 13 (moved offset)) % 2 ^ 32;
          }))
        × (((c.pc + signed 13 (moved offset)) % 2 ^ 32 ≡ (c.pc + signed 13 offset) % 2 ^ 32)
            ↔ (offset / 2 ^ 11 % 2 ≡ 0))
  execute-rv_bne_place src1 src2 offset s₁ s₂ even fits =
      let m : branch_immediate (rv_bne src1 src2 offset) ≡ moved offset =
        branch_immediate-sum src1 src2 offset ∙ omega arith in
      let e : extended (branch_immediate (rv_bne src1 src2 offset)) 13 ≡ signed 13 (moved offset) =
        ap (λ v. extended v 13) m ∙ extended_lem 12 (moved offset) (omega arith) (omega arith) in
      (
        execute-rv_bne c src1 src2 offset s₁ s₂
            ∙ ap
                (λ v.
                  on (record c { pc = u32 (c.pc + (if c.gpr src1 == c.gpr src2 then 4 else v)) }))
                e
            ∙ ap (λ (n : ℕ). on (record c { pc = n })) (into (c.gpr src1 == c.gpr src2)),
        (λ h. ground arith, λ h. ground arith),
      )
    where
      into :
          (b : Bool)
          → u32 (c.pc + (if b then 4 else signed 13 (moved offset)))
            ≡ (if b then (c.pc + 4) % 2 ^ 32 else (c.pc + signed 13 (moved offset)) % 2 ^ 32)
      into true = refl
      into false = refl
