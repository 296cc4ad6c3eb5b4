-- ===== src/Gdb/Patch/Page.antt =====
-- A patch of the flash stays in the buffer of its page.
use libopenwch_tools.Prelude.{
  ℕ, zero, suc, ◌+◌, ◌-◌, ◌*◌, ◌/◌, ◌^◌, ◌≤◌, ◌<◌, ◌≡◌, refl, sym, ap, ◌∙◌, inl, inr, true, false,
  List, [], ◌∷◌, ◌++◌, ◌&&◌, leb, ltb, if◌then◌else◌, get_or, take, drop, length, length-append,
  length-take, length-drop, arith, bit_not32, Bool-cases,
}
use libopenwch_tools.Prelude.Bits.{bit_and_high}
use native.Mathlib.Nat.{one-le-pow}
use libopenwch_tools.Dm.Memory.Alike.{Bytes}
use libopenwch_tools.Dm.Memory.Block.{bytes_from}
use libopenwch_tools.Gdb.Patch.{page_start, patched}

pub page_start_lem :
    (address k : ℕ)
    → k ≤ 32
    → address < 2 ^ 32
    → page_start address (2 ^ k) ≡ address / 2 ^ k * 2 ^ k
unfolding page_start
page_start_lem address k h l =
    let e : bit_not32 (2 ^ k - 1) ≡ 2 ^ 32 - 2 ^ k = omega (arith, one-le-pow k 2) in
    rw e (bit_and_high k 32 address h l)

get_or-append_left :
    (xs ys : List ℕ) (i : ℕ) → i < length xs → get_or (xs ++ ys) i 0 ≡ get_or xs i 0
get_or-append_left [] ys i h = absurd (omega arith)
get_or-append_left (x ∷ xs) ys zero h = refl
get_or-append_left (x ∷ xs) ys (suc i) h = get_or-append_left xs ys i (omega arith)

get_or-append_right : (xs ys : List ℕ) (i : ℕ) → get_or (xs ++ ys) (length xs + i) 0 ≡ get_or ys i 0
get_or-append_right [] ys i = let e : 0 + i ≡ i = omega arith in ap (λ k. get_or ys k 0) e
get_or-append_right (x ∷ xs) ys i =
    let e : suc (length xs) + i ≡ suc (length xs + i) = omega arith in
    ap (λ k. get_or (x ∷ (xs ++ ys)) k 0) e ∙ get_or-append_right xs ys i

get_or-take : (n i : ℕ) (xs : List ℕ) → i < n → get_or (take n xs) i 0 ≡ get_or xs i 0
get_or-take zero i xs h = absurd (omega arith)
get_or-take (suc n) i [] h = refl
get_or-take (suc n) zero (x ∷ xs) h = refl
get_or-take (suc n) (suc i) (x ∷ xs) h = get_or-take n i xs (omega arith)

get_or-drop : (n i : ℕ) (xs : List ℕ) → get_or (drop n xs) i 0 ≡ get_or xs (n + i) 0
get_or-drop zero i xs = let e : i ≡ 0 + i = omega arith in ap (λ k. get_or xs k 0) e
get_or-drop (suc n) i [] = refl
get_or-drop (suc n) i (x ∷ xs) =
    let e : suc (n + i) ≡ suc n + i = omega arith in
    get_or-drop n i xs ∙ ap (λ k. get_or (x ∷ xs) k 0) e

-- The page with the bytes at their place, byte by byte.
pub get_or-patched :
    (page bytes : List ℕ) (place i : ℕ)
    → place + length bytes ≤ length page
    → get_or (patched page place bytes) i 0 ≡ (
        if leb place i && ltb i (place + length bytes)
        then get_or bytes (i - place) 0
        else get_or page i 0)
unfolding patched
get_or-patched page bytes place i h =
    let before = take place page in
    let after = drop (place + length bytes) page in
    let lb : length before ≡ place = omega (arith, length-take place page) in
    elim (Bool-cases (ltb i place)) [
      | inl e ↦
          let l : leb place i && ltb i (place + length bytes) ≡ false = ground arith in
          rw l (
            get_or-append_left before (bytes ++ after) i (ground (arith, lb))
            ∙ get_or-take place i page (ground arith))
      | inr e ↦
          let ge : place ≤ i = ground arith in
          let at_i : length before + (i - place) ≡ i = omega (arith, lb) in
          let shift : get_or (before ++ (bytes ++ after)) i 0
              ≡ get_or (bytes ++ after) (i - place) 0 =
            ap (λ k. get_or (before ++ (bytes ++ after)) k 0) (sym at_i)
            ∙ get_or-append_right before (bytes ++ after) (i - place) in
          elim (Bool-cases (ltb i (place + length bytes))) [
            | inl f ↦
                let l : leb place i && ltb i (place + length bytes) ≡ true = ground arith in
                rw l (shift ∙ get_or-append_left bytes after (i - place) (ground arith))
            | inr f ↦
                let l : leb place i && ltb i (place + length bytes) ≡ false = ground arith in
                let rest : ℕ = i - place - length bytes in
                let at_rest : length bytes + rest ≡ i - place = ground arith in
                let back : place + length bytes + rest ≡ i = ground arith in
                rw l (
                  shift
                  ∙ ap (λ k. get_or (bytes ++ after) k 0) (sym at_rest)
                  ∙ get_or-append_right bytes after rest
                  ∙ get_or-drop (place + length bytes) rest page
                  ∙ ap (λ k. get_or page k 0) back)
          ]
    ]

pub length-patched :
    (page bytes : List ℕ) (place : ℕ)
    → place + length bytes ≤ length page
    → length (patched page place bytes) ≡ length page
unfolding patched
length-patched page bytes place h = omega (
  arith,
  length-append (take place page) (bytes ++ drop (place + length bytes) page),
  length-append bytes (drop (place + length bytes) page),
  length-take place page,
  length-drop (place + length bytes) page,
)

append-Bytes : (xs ys : List ℕ) → Bytes xs → Bytes ys → Bytes (xs ++ ys)
append-Bytes [] ys h k = k
append-Bytes (x ∷ xs) ys h k = (h.0, append-Bytes xs ys h.1 k)

take-Bytes : (n : ℕ) (xs : List ℕ) → Bytes xs → Bytes (take n xs)
take-Bytes zero xs h = tt
take-Bytes (suc n) [] h = tt
take-Bytes (suc n) (x ∷ xs) h = (h.0, take-Bytes n xs h.1)

drop-Bytes : (n : ℕ) (xs : List ℕ) → Bytes xs → Bytes (drop n xs)
drop-Bytes zero xs h = h
drop-Bytes (suc n) [] h = tt
drop-Bytes (suc n) (x ∷ xs) h = drop-Bytes n xs h.1

pub patched-Bytes :
    (page bytes : List ℕ) (place : ℕ) → Bytes page → Bytes bytes → Bytes (patched page place bytes)
unfolding patched
patched-Bytes page bytes place h k =
    append-Bytes (take place page) _ (take-Bytes place page h)
      (append-Bytes bytes _ k (drop-Bytes (place + length bytes) page h))

pub bytes_from-Bytes :
    (mem : ℕ → ℕ) (a n : ℕ) → ((x : ℕ) → mem x < 256) → Bytes (bytes_from mem a n)
bytes_from-Bytes mem a zero h = tt
bytes_from-Bytes mem a (suc n) h = (h a, bytes_from-Bytes mem (a + 1) n h)

-- A range in a page, by places in the page and by addresses.
pub in_page :
    (start a n x : ℕ)
    → start ≤ a
    → start ≤ x
    → (leb (a - start) (x - start) && ltb (x - start) (a - start + n)) ≡ (leb a x && ltb x (a + n))
in_page start a n x h k = elim (Bool-cases (leb a x && ltb x (a + n))) [
  | inl e ↦ rw e (ground arith)
  | inr e ↦ rw e (ground arith)
]

pub outside_page :
    (start a n x : ℕ)
    → start ≤ a
    → a + n ≤ start + 64
    → leb start x && ltb x (start + 64) ≡ false
    → leb a x && ltb x (a + n) ≡ false
outside_page start a n x h k e = ground arith
