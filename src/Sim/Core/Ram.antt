-- ===== src/Sim/Core/Ram.antt =====
-- The accesses that the simulated core (tests/sim_programmer.c) makes in its RAM, byte by byte.
use libopenwch_tools.Prelude.{
  ℕ, zero, suc, ◌+◌, ◌-◌, ◌*◌, ◌/◌, ◌%◌, ◌^◌, ◌<◌, ◌≤◌, ◌≡◌, refl, ap, ◌∙◌, ◌⊎◌, inl, inr, true,
  false, ◌&&◌, ◌==◌, leb, ltb, if◌then◌else◌, arith, bit_and, u32, ◌>>>◌, Bool-cases,
}
use libopenwch_tools.Prelude.Bits.{bit_and_mask, bit_and_high}
use libopenwch_tools.Sim as Sim
use libopenwch_tools.Sim.{is_ctrl, is_flash, put, put_bytes, get_bytes}
use libopenwch_tools.Sim.Read.{get_byte, get_half, get_word}
use libopenwch_tools.Sim.Core.{Core, in_ram, store, loaded, after_load}

put_bytes_lem :
    (n i : ℕ) (f : ℕ → ℕ) (o value x : ℕ)
    → put_bytes n i f o value x
      ≡ (if leb (o + i) x && ltb x (o + i + n) then value / 2 ^ (8 * (x - o)) % 256 else f x)
unfolding put_bytes
put_bytes_lem zero i f o value x =
    let e : leb (o + i) x && ltb x (o + i + 0) ≡ false = ground arith in rw e refl
put_bytes_lem (suc n) i f o value x =
    let b : bit_and (value >>> (8 * i)) 0xff ≡ value / 2 ^ (8 * i) % 256 =
      bit_and_mask 8 (value >>> (8 * i)) in
    let rest =
      put_bytes_lem n (i + 1) (put f (o + i) (bit_and (value >>> (8 * i)) 0xff)) o value x in
    elim (Bool-cases (x == o + i)) [
      | inl e ↦
          let out : leb (o + (i + 1)) x && ltb x (o + (i + 1) + n) ≡ false = ground arith in
          let inside : leb (o + i) x && ltb x (o + i + suc n) ≡ true = ground arith in
          let place : i ≡ x - o = ground arith in
          let r = rw (out, e) at rest in
          rw inside (r ∙ b ∙ ap (λ (k : ℕ). value / 2 ^ (8 * k) % 256) place)
      | inr e ↦
          let same : (leb (o + (i + 1)) x && ltb x (o + (i + 1) + n))
              ≡ (leb (o + i) x && ltb x (o + i + suc n)) =
            ground arith in
          rw (same, e) at rest
    ]

-- A number of `k` bits as the two's complement number of 32 bits.
abbrev pub signed : ℕ → ℕ → ℕ
signed k v = if ltb v (2 ^ (k - 1)) then v else v + (2 ^ 32 - 2 ^ k)

-- What a load of 1, 2 or 4 bytes makes of the RAM from a place on: a halfword is sign extended, a
-- byte is not.
abbrev pub value_at : ℕ → (ℕ → ℕ) → ℕ → ℕ
value_at size ram o =
    if size == 0
    then ram o
    else if size == 1
    then signed 16 (ram o + 2 ^ 8 * ram (o + 1))
    else ram o + 2 ^ 8 * ram (o + 1) + 2 ^ 16 * ram (o + 2) + 2 ^ 24 * ram (o + 3)

get_bytes-value_at :
    (size o : ℕ) (ram : ℕ → ℕ)
    → size ≤ 2
    → ((x : ℕ) → ram x < 256)
    → (let value = get_bytes (2 ^ size) 0 ram o 0 in
        u32 (if size == 1 then Sim.sign_extend value else value))
      ≡ value_at size ram o
get_bytes-value_at zero o ram h bytes =
    let b = bytes o in ap (λ n. u32 n) (get_byte ram o b) ∙ omega arith
get_bytes-value_at (suc zero) o ram h bytes =
    let b0 = bytes o in
    let b1 = bytes (o + 1) in
    ap (λ n. u32 (Sim.sign_extend n)) (get_half ram o bytes) ∙ ground arith
get_bytes-value_at (suc (suc zero)) o ram h bytes =
    let b0 = bytes o in
    let b1 = bytes (o + 1) in
    let b2 = bytes (o + 2) in
    let b3 = bytes (o + 3) in ap (λ n. u32 n) (get_word ram o bytes) ∙ omega arith
get_bytes-value_at (suc (suc (suc size))) o ram h bytes = absurd (omega arith)

-- The RAM lies between the flash and the controller, and the address is not below it.
module _ (c : Core) (address : ℕ) (low : 0x2000_0000 ≤ c.ram_offset)
    (high : c.ram_offset + c.ram_size ≤ 0x4000_0000) (from : c.ram_offset ≤ address) where
  not_elsewhere : address < 0x4000_0000 → (is_ctrl address ≡ false) × (is_flash address ≡ false)
  unfolding is_ctrl is_flash
  not_elsewhere h =
      let e : bit_and address 0xff00_0000 ≡ address / 2 ^ 24 * 2 ^ 24 =
        bit_and_high 24 32 address (omega arith) (omega arith) in
      (ground arith, ground (arith, e))

  module _ (size : ℕ) (small : size ≤ 2)
      (fits : address + 2 ^ size ≤ c.ram_offset + c.ram_size) where
    pub width : 0 < 2 ^ size
    width = elim (size_cases size small) [
      | inl e ↦ rw e (omega arith)
      | inr (inl e) ↦ rw e (omega arith)
      | inr (inr e) ↦ rw e (omega arith)
    ]
      where
        size_cases : (k : ℕ) → k ≤ 2 → (k ≡ 0) ⊎ ((k ≡ 1) ⊎ (k ≡ 2))
        size_cases zero h = inl refl
        size_cases (suc zero) h = inr (inl refl)
        size_cases (suc (suc k)) h = inr (inr (omega arith))

    in_ram_lem : in_ram (2 ^ size) address c ≡ true
    unfolding in_ram
    in_ram_lem =
        let w = width in
        let e = not_elsewhere (omega (arith, w)) in rw (e.0, e.1) (ground (arith, w))

    -- A store changes the bytes of its width, to those of the value with the lowest first.
    pub store_lem :
        (value : ℕ)
        → (ram : ℕ → ℕ) × (store size address value c ≡ record c { ram = ram })
          × ((x : ℕ)
              → ram x ≡ (
                  if leb (address - c.ram_offset) x && ltb x (address - c.ram_offset + 2 ^ size)
                  then value / 2 ^ (8 * (x - (address - c.ram_offset))) % 256
                  else c.ram x))
    unfolding store Sim.write
    store_lem value =
        let w = width in
        let e = not_elsewhere (omega (arith, w)) in
        let o : ℕ = address - c.ram_offset in
        let z : o + 0 ≡ o = omega arith in
        (
          put_bytes (2 ^ size) 0 c.ram o value,
          rw (in_ram_lem, e.0, e.1) refl,
          λ x. let p = put_bytes_lem (2 ^ size) 0 c.ram o value x in rw z at p,
        )

    pub after_load_lem : after_load size address c ≡ c
    unfolding after_load Sim.read
    after_load_lem = let w = width in let e = not_elsewhere (omega (arith, w)) in rw (e.0, e.1) refl

    loaded_lem : loaded size address c ≡ (
        let value = get_bytes (2 ^ size) 0 c.ram (address - c.ram_offset) 0 in
        u32 (if size == 1 then Sim.sign_extend value else value))
    unfolding loaded
    loaded_lem = rw in_ram_lem refl

    pub loaded-value_at :
        ((x : ℕ) → c.ram x < 256)
        → loaded size address c ≡ value_at size c.ram (address - c.ram_offset)
    loaded-value_at bytes = loaded_lem ∙ get_bytes-value_at size _ c.ram small bytes
