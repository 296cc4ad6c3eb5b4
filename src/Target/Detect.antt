-- ===== src/Target/Detect.antt =====
-- `wl_chip_by_detect_id` (src/target.c): the family byte and model word that the programmer reports.
use libopenwch_tools.Prelude.{
  ℕ, suc, ◌*◌, ◌/◌, ◌%◌, ◌^◌, ◌<◌, ◌≡◌, ◌↔◌, inl, inr, true, ◌&&◌, Option, none, some, List, [],
  ◌∷◌, arith, ◌==◌, if◌then◌else◌, get_elem?, bit_and, Bool-cases, ltb, All, All_at,
}
use libopenwch_tools.Prelude.Bits.{bit_and_high}
use libopenwch_tools.Target.Table.{Chip, chips}

-- The loop over the table, with the low nibble of the model already cleared.
find_id : List Chip → ℕ → ℕ → Option Chip
find_id [] family_id model_id = none
find_id (c ∷ cs) family_id model_id =
    if (c.linke_id == family_id) && (c.model_id == model_id)
    then some c
    else find_id cs family_id model_id

unfoldable pub by_detect_id : ℕ → ℕ → Option Chip
unfolding find_id
by_detect_id family_id model_id = find_id chips family_id (bit_and model_id 0xfff0)

-- The entry at a position of the table.
abbrev pub IsEntry : List Chip → ℕ → Chip → Type 0
IsEntry cs i c = get_elem? cs i ≡ some c

abbrev HasId : ℕ → ℕ → Chip → Type 0
HasId f m c = (c.linke_id ≡ f) × (c.model_id ≡ m)

find_id_sound :
    (cs : List Chip) (f m : ℕ) (c : Chip)
    → find_id cs f m ≡ some c
    → ((i : ℕ) × IsEntry cs i c) × HasId f m c
unfolding find_id
find_id_sound [] f m c h = cc
find_id_sound (d ∷ cs) f m c h = elim (Bool-cases ((d.linke_id == f) && (d.model_id == m))) [
  | inl hit ↦ ((0, ground arith), ground arith)
  | inr miss ↦ let ih = find_id_sound cs f m c (rw miss at h) in ((suc ih.0.0, ih.0.1), ih.1)
]

-- Each entry is the first with its own identifiers, and its model has a zero low nibble.
abbrev FindsItself : Chip → Type 0
FindsItself c =
    (find_id chips c.linke_id c.model_id ≡ some c)
    × (c.model_id % 16 ≡ 0)
    × ((ltb c.model_id (2 ^ 16)) ≡ true)

chips-FindsItself : All FindsItself chips
unfolding chips find_id
chips-FindsItself = ground arith

low_nibble : (m : ℕ) → m < 2 ^ 16 → bit_and m 0xfff0 ≡ m / 16 * 16
low_nibble m h = bit_and_high 4 16 m (omega arith) h

-- A family byte and a 16-bit model are resolved to a part exactly when that part is in the table
-- with that family byte and with that model up to its low four bits.
pub by_detect_id_iff :
    (f m : ℕ) (c : Chip)
    → m < 2 ^ 16
    → (by_detect_id f m ≡ some c)
      ↔ (((i : ℕ) × IsEntry chips i c) × (c.linke_id ≡ f) × (c.model_id / 16 ≡ m / 16))
unfolding by_detect_id
by_detect_id_iff f m c fits = (there, back)
  where
    there :
        by_detect_id f m ≡ some c
        → ((i : ℕ) × IsEntry chips i c) × (c.linke_id ≡ f) × (c.model_id / 16 ≡ m / 16)
    there h =
        let s = find_id_sound chips f (bit_and m 0xfff0) c h in
        (s.0, s.1.0, omega (arith, s.1.1, low_nibble m fits))

    back :
        ((i : ℕ) × IsEntry chips i c) × (c.linke_id ≡ f) × (c.model_id / 16 ≡ m / 16)
        → by_detect_id f m ≡ some c
    back h =
        let own = All_at FindsItself chips h.0.0 c chips-FindsItself h.0.1 in
        let e : c.model_id ≡ bit_and m 0xfff0 = omega (arith, low_nibble m fits, own.1, h.2) in
        rw (← e, ← h.1) own.0
