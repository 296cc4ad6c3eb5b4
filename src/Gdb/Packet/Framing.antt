-- ===== src/Gdb/Packet/Framing.antt =====
-- What the receiver makes of a packet that the sender framed.
use libopenwch_tools.Prelude.{
  ℕ, suc, ◌+◌, ◌*◌, ◌/◌, ◌%◌, ◌<◌, ◌≡◌, refl, sym, ap, ◌∙◌, true, false, none, some, List, [], ◌∷◌,
  ◌++◌, ◌==◌, if◌then◌else◌, length, bit_or, u8, ◌<<<◌, arith, Bool-cases, ◌⊎◌, inl, inr, lt→ltb,
  ==→eq, eq→==,
}
use Prim.Native.Nat.{bit_xor}
use mathlib.Core.Path.{subst}
use mathlib.Core.List.{append_assoc}
use libopenwch_tools.Prelude.Bits.{bit_or_multiple}
use libopenwch_tools.Gdb.Hex.{format_hex_byte, hex_nibble-format}
use libopenwch_tools.Gdb.Packet.{
  is_special, escape, sum, framed, packet_max, skip, put_front, collect, unescape, judge, low_digit,
  digits, collected, started, receive,
}

-- How many characters of the payload are escaped.
pub escapes : List ℕ → ℕ
escapes [] = 0
escapes (c ∷ payload) = (if is_special c then 1 else 0) + escapes payload

-- The four special characters.
special_lem : (c : ℕ) → is_special c ≡ true → ((c ≡ 0x24) ⊎ (c ≡ 0x23)) ⊎ ((c ≡ 0x7d) ⊎ (c ≡ 0x2a))
unfolding is_special
special_lem c h = ground arith

-- A special character, and what stands for it after the escape.
abbrev IsSwapped : ℕ → Type 0
IsSwapped c =
    (bit_xor c 0x20 + 32 ≡ c)
    × (bit_xor (bit_xor c 0x20) 0x20 ≡ c)
    × ((bit_xor c 0x20 == b'#') ≡ false)

special-IsSwapped : (c : ℕ) → is_special c ≡ true → IsSwapped c
special-IsSwapped c s = elim (special_lem c s) [
  | inl (inl e) ↦ subst IsSwapped (sym e) (refl, refl, refl)
  | inl (inr e) ↦ subst IsSwapped (sym e) (refl, refl, refl)
  | inr (inl e) ↦ subst IsSwapped (sym e) (refl, refl, refl)
  | inr (inr e) ↦ subst IsSwapped (sym e) (refl, refl, refl)
]

sum_shift : (payload : List ℕ) (k : ℕ) → sum payload k % 256 ≡ (k + sum payload 0) % 256
unfolding sum
sum_shift [] k = omega arith
sum_shift (c ∷ payload) k =
    omega (arith, sum_shift payload (u8 (k + c)), sum_shift payload (u8 (0 + c)))

-- Each escape moves the sum of the bytes on the wire by 93.
sum-escape :
    (payload : List ℕ) (k : ℕ)
    → sum (escape payload) k % 256 ≡ (sum payload k + 93 * escapes payload) % 256
unfolding sum escape escapes
sum-escape [] k = ground arith
sum-escape (c ∷ payload) k = elim (Bool-cases (is_special c)) [
  | inl s ↦
      let x = bit_xor c 0x20 in
      let w = (special-IsSwapped c s).0 in
      rw s (
        omega (
          arith,
          w,
          sum-escape payload (u8 (u8 (k + 125) + x)),
          sum_shift payload (u8 (u8 (k + 125) + x)),
          sum_shift payload (u8 (k + c)),
        ))
  | inr p ↦ rw p (omega (arith, sum-escape payload (u8 (k + c))))
]

plain_lem : (c : ℕ) → is_special c ≡ false → (c == b'#') ≡ false
unfolding is_special
plain_lem c h = ground arith

plain_escape_lem : (c : ℕ) → is_special c ≡ false → (c == b'}') ≡ false
unfolding is_special
plain_escape_lem c h = ground arith

collect-escape :
    (payload tail : List ℕ) (n : ℕ)
    → n + length (escape payload) < packet_max
    → collect n (escape payload ++ (b'#' ∷ tail)) ≡ some (escape payload, tail)
unfolding collect escape put_front
collect-escape [] tail n h = refl
collect-escape (c ∷ payload) tail n h = elim (Bool-cases (is_special c)) [
  | inl s ↦
      let h2 : n + suc (suc (length (escape payload))) < packet_max = rw s at h in
      let w = (special-IsSwapped c s).2 in
      let ih = collect-escape payload tail (n + 1 + 1) (omega (arith, h2)) in
      rw
        (
          s,
          w,
          lt→ltb (n + 1) packet_max (omega (arith, h2)),
          lt→ltb (n + 1 + 1) packet_max (omega (arith, h2)),
          ih,
        )
        refl
  | inr p ↦
      let h2 : n + suc (length (escape payload)) < packet_max = rw p at h in
      let q : (c == b'#') ≡ false = plain_lem c p in
      let ih = collect-escape payload tail (n + 1) (omega (arith, h2)) in
      rw (p, q, lt→ltb (n + 1) packet_max (omega (arith, h2)), ih) refl
]

unescape-escape :
    (payload : List ℕ) (out_max n : ℕ)
    → n + length payload < out_max
    → unescape out_max n false (escape payload) ≡ some payload
unfolding unescape escape
unescape-escape [] out_max n h = refl
unescape-escape (c ∷ payload) out_max n h = elim (Bool-cases (is_special c)) [
  | inl s ↦
      let w = (special-IsSwapped c s).1 in
      let ih = unescape-escape payload out_max (n + 1) (omega arith) in
      rw (s, lt→ltb (n + 1) out_max (omega arith), ih) (ap (λ x. some (x ∷ payload)) w)
  | inr p ↦
      let q : (c == b'}') ≡ false = plain_escape_lem c p in
      let ih = unescape-escape payload out_max (n + 1) (omega arith) in
      rw (p, q, lt→ltb (n + 1) out_max (omega arith), ih) refl
]

sum_lt : (payload : List ℕ) (k : ℕ) → k < 256 → sum payload k < 256
unfolding sum
sum_lt [] k h = h
sum_lt (c ∷ payload) k h = sum_lt payload (u8 (k + c)) (omega arith)

same_sum :
    (payload : List ℕ) → (sum (escape payload) 0 == sum payload 0) ≡ (escapes payload % 256 == 0)
same_sum payload =
    let a = sum_lt (escape payload) 0 (omega arith) in
    let b = sum_lt payload 0 (omega arith) in
    let e = sum-escape payload 0 in
    elim (Bool-cases (escapes payload % 256 == 0)) [
      | inl z ↦
          let z' : escapes payload % 256 ≡ 0 = ==→eq (escapes payload % 256) 0 z in
          let q : sum (escape payload) 0 ≡ sum payload 0 = omega (arith, a, b, e, z') in
          eq→== (sum (escape payload) 0) (sum payload 0) q ∙ sym z
      | inr z ↦ elim (Bool-cases (sum (escape payload) 0 == sum payload 0)) [
        | inl y ↦
            let y' : sum (escape payload) 0 ≡ sum payload 0 =
              ==→eq (sum (escape payload) 0) (sum payload 0) y in
            let q : escapes payload % 256 ≡ 0 = omega (arith, e, y') in
            y ∙ sym (eq→== (escapes payload % 256) 0 q)
        | inr y ↦ y ∙ sym z
      ]
    ]

-- The two digits of a sum are read back, and then the sums are compared.
digits_lem :
    (out_max s : ℕ) (raw tail : List ℕ)
    → s < 256
    → digits out_max raw (format_hex_byte s ++ tail) ≡ judge out_max raw s tail
unfolding digits low_digit format_hex_byte
digits_lem out_max s raw tail h =
    let d = hex_nibble-format s h in
    let join : u8 (bit_or ((s / 16) <<< 4) (s % 16)) ≡ s =
      ap u8 (bit_or_multiple 4 ((s / 16) <<< 4) (s % 16) (omega arith) (omega arith))
      ∙ omega (arith, h) in
    rw (digits, d.0, low_digit, d.1) (ap (λ v. judge out_max raw v tail) join)

-- A packet that the sender frames, and that fits the receiver's buffers, is taken by the receiver with
-- its payload as it was and a `+` sent back where the number of its escaped characters is a multiple
-- of 256, none for one; with any other number it is refused with a `-`, since the sum that is sent is
-- not that of the bytes on the wire. What follows the packet stays on the stream.
pub receive-framed :
    (payload tail : List ℕ) (out_max : ℕ)
    → length (escape payload) < packet_max
    → length payload < out_max
    → receive out_max (framed payload ++ tail) ≡ (
        if escapes payload % 256 == 0
        then record { packet = some payload; sent = b'+' ∷ []; rest = tail }
        else record { packet = none; sent = b'-' ∷ []; rest = tail })
unfolding receive framed started collected skip
receive-framed payload tail out_max raw_fits out_fits =
    let s = sum payload 0 in
    ap (λ body. collected out_max (collect 0 body))
      (append_assoc (escape payload) (b'#' ∷ format_hex_byte s) tail)
    ∙ ap (collected out_max)
        (collect-escape payload (format_hex_byte s ++ tail) 0 (omega (arith, raw_fits)))
    ∙ digits_lem out_max s (escape payload) tail (sum_lt payload 0 (omega arith))
    ∙ judged
  where
    judged : judge out_max (escape payload) (sum payload 0) tail ≡ (
        if escapes payload % 256 == 0
        then record { packet = some payload; sent = b'+' ∷ []; rest = tail }
        else record { packet = none; sent = b'-' ∷ []; rest = tail })
    judged =
        unfold judge in
        rw (same_sum payload, unescape-escape payload out_max 0 (omega (arith, out_fits))) refl
