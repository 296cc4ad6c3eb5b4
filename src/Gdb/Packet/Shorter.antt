-- ===== src/Gdb/Packet/Shorter.antt =====
-- A packet that is received uses up bytes of the stream.
use libopenwch_tools.Prelude.{
  ℕ, suc, ◌+◌, ◌≤◌, ◌<◌, ◌≡◌, refl, ap, inl, inr, Option, none, some, List, [], ◌∷◌, ◌==◌, ltb,
  length, arith, Bool-cases, bit_or, u8, ◌<<<◌,
}
use libopenwch_tools.Gdb.Hex.{hex_nibble}
use libopenwch_tools.Gdb.Packet.{
  packet_max, skip, put_front, collect, Received, judge, no_packet, low_digit, digits, collected,
  started, receive, sum,
}

-- What is left of the stream after an optional part.
abbrev Leaves : Option (List ℕ) → ℕ → Type 0
Leaves none n = Unit
Leaves (some rest) n = length rest < n

Leaves-le : (o : Option (List ℕ)) (m n : ℕ) → m ≤ n → Leaves o m → Leaves o n
Leaves-le none m n h l = tt
Leaves-le (some rest) m n h l = omega (arith, h, l)

skip-Leaves : (stream : List ℕ) → Leaves (skip stream) (length stream)
unfolding skip
skip-Leaves [] = tt
skip-Leaves (c ∷ stream) = elim (Bool-cases (c == b'$')) [
  | inl e ↦ rw e (omega arith)
  | inr e ↦ rw e (
      Leaves-le (skip stream) (length stream) (suc (length stream)) (omega arith)
        (skip-Leaves stream))
]

abbrev Collects : Option (List ℕ × List ℕ) → ℕ → Type 0
Collects none n = Unit
Collects (some p) n = length p.1 < n

Collects-suc : (o : Option (List ℕ × List ℕ)) (n : ℕ) → Collects o n → Collects o (suc n)
Collects-suc none n l = tt
Collects-suc (some p) n l = omega (arith, l)

put_front-Collects :
    (c : ℕ) (o : Option (List ℕ × List ℕ)) (n : ℕ) → Collects o n → Collects (put_front c o) n
unfolding put_front
put_front-Collects c none n l = tt
put_front-Collects c (some (raw, stream)) n l = l

collect-Collects : (n : ℕ) (stream : List ℕ) → Collects (collect n stream) (length stream)
unfolding collect
collect-Collects n [] = tt
collect-Collects n (c ∷ stream) = elim (Bool-cases (c == b'#')) [
  | inl e ↦ rw e (omega arith)
  | inr e ↦ elim (Bool-cases (ltb (n + 1) packet_max)) [
    | inl f ↦
        rw (e, f)
          (Collects-suc (put_front c (collect (n + 1) stream)) (length stream) (
            put_front-Collects c (collect (n + 1) stream) (length stream)
              (collect-Collects (n + 1) stream)))
    | inr f ↦
        rw (e, f) (Collects-suc (collect n stream) (length stream) (collect-Collects n stream))
  ]
]

judge-rest : (m : ℕ) (raw : List ℕ) (n : ℕ) (rest : List ℕ) → (judge m raw n rest).rest ≡ rest
unfolding judge
judge-rest m raw n rest = elim (Bool-cases (sum raw 0 == n)) [
  | inl e ↦ rw e refl
  | inr e ↦ rw e refl
]

low_digit-rest :
    (m : ℕ) (raw : List ℕ) (high : ℕ) (stream : List ℕ)
    → length (low_digit m raw high stream).rest ≤ length stream
unfolding low_digit no_packet
low_digit-rest m raw high [] = omega arith
low_digit-rest m raw high (c ∷ stream) = by_low (hex_nibble c)
  where
    by_low :
        (o : Option ℕ)
        → length
            (elim o as (λ _. Received) [
              | none ↦ record { packet = none; sent = []; rest = stream }
              | some low ↦ judge m raw (u8 (bit_or (high <<< 4) low)) stream
            ]).rest
          ≤ suc (length stream)
    by_low none = omega arith
    by_low (some low) = omega (
      arith,
      ap (λ (r : List ℕ). length r) (judge-rest m raw (u8 (bit_or (high <<< 4) low)) stream),
    )

digits-rest : (m : ℕ) (raw stream : List ℕ) → length (digits m raw stream).rest ≤ length stream
unfolding digits no_packet
digits-rest m raw [] = omega arith
digits-rest m raw (c ∷ stream) = by_high (hex_nibble c)
  where
    by_high :
        (o : Option ℕ)
        → length
            (elim o as (λ _. Received) [
              | none ↦ record { packet = none; sent = []; rest = stream }
              | some high ↦ low_digit m raw high stream
            ]).rest
          ≤ suc (length stream)
    by_high none = omega arith
    by_high (some high) = omega (arith, low_digit-rest m raw high stream)

-- A packet was received, and then fewer bytes are left.
abbrev Uses : Received → ℕ → Type 0
Uses r n = (p : List ℕ) → r.packet ≡ some p → length r.rest < n

collected-Uses :
    (m : ℕ) (o : Option (List ℕ × List ℕ)) (n : ℕ) → Collects o n → Uses (collected m o) n
unfolding collected no_packet
collected-Uses m none n l p e = cc
collected-Uses m (some (raw, stream)) n l p e = omega (arith, l, digits-rest m raw stream)

started-Uses : (m : ℕ) (o : Option (List ℕ)) (n : ℕ) → Leaves o n → Uses (started m o) n
unfolding started no_packet
started-Uses m none n l p e = cc
started-Uses m (some stream) n l p e =
    let k = collected-Uses m (collect 0 stream) (length stream) (collect-Collects 0 stream) p e in
    omega (arith, l, k)

pub receive-shorter :
    (m : ℕ) (stream p : List ℕ)
    → (receive m stream).packet ≡ some p
    → length (receive m stream).rest < length stream
unfolding receive
receive-shorter m stream p e = started-Uses m (skip stream) (length stream) (skip-Leaves stream) p e
