-- ===== src/Gdb/Document/Pieces.antt =====
-- A document read in pieces is the document.
use libopenwch_tools.Prelude.{
  ℕ, zero, suc, ◌+◌, ◌-◌, ◌≤◌, ◌<◌, ◌≡◌, refl, sym, ap, ◌∙◌, inl, inr, true, false, List, [], ◌∷◌,
  ◌++◌, ◌==◌, leb, ltb, if◌then◌else◌, get_or, take, drop, length, length-take, length-drop, arith,
  Bool-cases,
}
use libopenwch_tools.Gdb.Packet.{packet_max}
use libopenwch_tools.Gdb.Document.{qxfer_reply}

-- How the debugger reads a document: it asks for `requested` bytes at each offset, keeps what follows
-- the first character, and goes on behind it until that character is an `l`.
pub fetch : ℕ → List ℕ → ℕ → ℕ → List ℕ
fetch zero bytes requested offset = []
fetch (suc rounds) bytes requested offset =
    let piece = qxfer_reply bytes offset requested in
    let later = fetch rounds bytes requested (offset + length (drop 1 piece)) in
    if get_or piece 0 0 == b'l' then drop 1 piece else drop 1 piece ++ later

take_and_drop : (n : ℕ) (xs : List ℕ) → take n xs ++ drop n xs ≡ xs
take_and_drop zero xs = refl
take_and_drop (suc n) [] = refl
take_and_drop (suc n) (x ∷ xs) = ap (λ ys. x ∷ ys) (take_and_drop n xs)

drop-drop : (m n : ℕ) (xs : List ℕ) → drop n (drop m xs) ≡ drop (m + n) xs
drop-drop zero n xs = let e : n ≡ 0 + n = omega arith in ap (λ k. drop k xs) e
drop-drop (suc m) n [] = drop_nil n ∙ sym (drop_nil (suc m + n))
  where
    drop_nil : (k : ℕ) → drop {A = ℕ} k [] ≡ []
    drop_nil zero = refl
    drop_nil (suc k) = refl
drop-drop (suc m) n (x ∷ xs) =
    let e : suc (m + n) ≡ suc m + n = omega arith in drop-drop m n xs ∙ ap (λ k. drop k (x ∷ xs)) e

drop_all : (n : ℕ) (xs : List ℕ) → length xs ≤ n → drop n xs ≡ []
drop_all zero [] h = refl
drop_all zero (x ∷ xs) h = absurd (omega arith)
drop_all (suc n) [] h = refl
drop_all (suc n) (x ∷ xs) h = drop_all n xs (omega arith)

-- The size of a piece.
abbrev piece_size : List ℕ → ℕ → ℕ → ℕ
piece_size bytes offset requested =
    let room = if ltb (packet_max - 1) requested then packet_max - 1 else requested in
    if ltb room (length bytes - offset) then room else length bytes - offset

take_all : (n : ℕ) (xs : List ℕ) → length xs ≤ n → take n xs ≡ xs
take_all zero [] h = refl
take_all zero (x ∷ xs) h = absurd (omega arith)
take_all (suc n) [] h = refl
take_all (suc n) (x ∷ xs) h = ap (λ ys. x ∷ ys) (take_all n xs (omega arith))

piece_size-pos :
    (bytes : List ℕ) (offset requested : ℕ)
    → offset < length bytes
    → 0 < requested
    → 0 < piece_size bytes offset requested
piece_size-pos bytes offset requested l h = ground arith

leb-false : (a b : ℕ) → b < a → leb a b ≡ false
leb-false a b h = ground arith

leb-true : (a b : ℕ) → a ≤ b → leb a b ≡ true
leb-true a b h = ground arith

pos-false : (a : ℕ) → 0 < a → (a == 0) ≡ false
pos-false a h = ground arith

-- A piece that is not the last, and the last.
reply_more :
    (bytes : List ℕ) (offset requested : ℕ)
    → offset + piece_size bytes offset requested < length bytes
    → 0 < requested
    → qxfer_reply bytes offset requested
      ≡ b'm' ∷ take (piece_size bytes offset requested) (drop offset bytes)
unfolding qxfer_reply
reply_more bytes offset requested l h =
    let size = piece_size bytes offset requested in
    rw
      (
        leb-false (length bytes) offset (omega arith),
        pos-false size (piece_size-pos bytes offset requested (omega arith) h),
        leb-false (length bytes) (offset + size) l,
      )
      refl

reply_last :
    (bytes : List ℕ) (offset requested : ℕ)
    → length bytes ≤ offset + piece_size bytes offset requested
    → 0 < requested
    → qxfer_reply bytes offset requested ≡ b'l' ∷ drop offset bytes
unfolding qxfer_reply
reply_last bytes offset requested l h = elim (Bool-cases (leb (length bytes) offset)) [
  | inl e ↦ rw e (ap (λ xs. b'l' ∷ xs) (sym (drop_all offset bytes (ground arith))))
  | inr e ↦
      let size = piece_size bytes offset requested in
      rw
        (
          e,
          pos-false size (piece_size-pos bytes offset requested (ground arith) h),
          leb-true (length bytes) (offset + size) l,
        )
        (ap (λ xs. b'l' ∷ xs)
          (take_all size (drop offset bytes) (omega (arith, length-drop offset bytes))))
]

fetch-drop :
    (rounds : ℕ) (bytes : List ℕ) (requested offset : ℕ)
    → 0 < requested
    → length bytes - offset < rounds
    → fetch rounds bytes requested offset ≡ drop offset bytes
unfolding fetch
fetch-drop zero bytes requested offset h r = absurd (omega arith)
fetch-drop (suc rounds) bytes requested offset h r =
    let size = piece_size bytes offset requested in
    elim (Bool-cases (leb (length bytes) (offset + size))) [
      | inl e ↦ rw (reply_last bytes offset requested (ground arith) h) refl
      | inr e ↦
          let l : offset + size < length bytes = ground arith in
          let piece = take size (drop offset bytes) in
          let n : length piece ≡ size =
            omega (arith, length-take size (drop offset bytes), length-drop offset bytes) in
          let pos = piece_size-pos bytes offset requested (omega arith) h in
          let later = fetch-drop rounds bytes requested (offset + size) h (omega arith) in
          rw (reply_more bytes offset requested l h) (
            ap (λ k. piece ++ fetch rounds bytes requested (offset + k)) n
            ∙ ap (λ xs. piece ++ xs) (later ∙ sym (drop-drop offset size bytes))
            ∙ take_and_drop size (drop offset bytes))
    ]

-- Whatever number of bytes the debugger asks for at a time, the pieces of a document that it reads one
-- after another, until the reply that says it is the last, make up the document. A round for each
-- byte of it, and one more, are enough.
pub fetch-whole :
    (bytes : List ℕ) (requested : ℕ)
    → 0 < requested
    → fetch (suc (length bytes)) bytes requested 0 ≡ bytes
fetch-whole bytes requested h = fetch-drop (suc (length bytes)) bytes requested 0 h (omega arith)
