-- ===== src/Gdb/Breakpoint/Slots.antt =====
-- The slots of the breakpoint table.
use libopenwch_tools.Prelude.{
  ℕ, suc, ◌%◌, ◌≡◌, refl, ap, ◌⊎◌, inl, inr, arith, Bool, true, false, ◌&&◌, ◌||◌, List, [], ◌∷◌,
  ◌==◌, if◌then◌else◌, length, All, Bool-cases,
}
use libopenwch_tools.Status.{Result, ok, err, ⊤}
use libopenwch_tools.Gdb.Breakpoint.{
  Breakpoint, Memory, Outcome, after_slot, replacement, taken, saved, insert_into, insert, released,
  remove, clear,
}

-- A slot that is not in use.
abbrev pub IsFree : Breakpoint → Type 0
IsFree bp = bp.used ≡ false

-- A slot that is free, or holds a breakpoint of two or four bytes at an address aligned to them.
abbrev pub IsSound : Breakpoint → Type 0
IsSound bp = (bp.used ≡ false) ⊎ (((bp.kind ≡ 2) ⊎ (bp.kind ≡ 4)) × (bp.address % bp.kind ≡ 0))

free-IsSound : (table : List Breakpoint) → All IsFree table → All IsSound table
free-IsSound [] h = tt
free-IsSound (bp ∷ table) h = (inl h.0, free-IsSound table h.1)

if-IsSound :
    {S : Type 0} (t : Bool) (o p : Outcome S)
    → All IsSound o.table
    → All IsSound p.table
    → All IsSound (if t then o else p).table
if-IsSound true o p h k = h
if-IsSound false o p h k = k

module _ {S : Type 0} (M : Memory S) where
  if_slots :
      (n : ℕ) (t : Bool) (o p : Outcome S)
      → length o.table ≡ suc n
      → length p.table ≡ suc n
      → length (if t then o else p).table ≡ suc n
  if_slots n true o p h k = h
  if_slots n false o p h k = k

  taken-slots :
      (address kind : ℕ) (bp : Breakpoint) (rest : List Breakpoint) (p : Result ⊤ × S)
      → length (taken M address kind bp rest p).table ≡ suc (length rest)
  unfolding taken
  taken-slots address kind bp rest (err e, s) = refl
  taken-slots address kind bp rest (ok x, s) = refl

  saved-slots :
      (address kind : ℕ) (bp : Breakpoint) (rest : List Breakpoint) (p : Result (List ℕ) × S)
      → length (saved M address kind bp rest p).table ≡ suc (length rest)
  unfolding saved
  saved-slots address kind bp rest (err e, s) = refl
  saved-slots address kind bp rest (ok bytes, s) =
      taken-slots address kind (record bp { original = bytes }) rest
        (M.patch address (replacement kind) s)

  insert_into-slots :
      (address kind : ℕ) (table : List Breakpoint) (s : S)
      → length (insert_into M address kind table s).table ≡ length table
  unfolding insert_into
  insert_into-slots address kind [] s = refl
  insert_into-slots address kind (bp ∷ table) s =
      if_slots (length table) bp.used (after_slot bp (insert_into M address kind table s))
        (saved M address kind bp table (M.read address kind s))
        (ap suc (insert_into-slots address kind table s))
        (saved-slots address kind bp table (M.read address kind s))

  pub insert-slots :
      (address kind : ℕ) (table : List Breakpoint) (s : S)
      → length (insert M address kind table s).table ≡ length table
  unfolding insert
  insert-slots address kind table s =
      elim (Bool-cases (((kind == 2) || (kind == 4)) && (address % kind == 0))) [
        | inl e ↦ rw e (insert_into-slots address kind table s)
        | inr e ↦ rw e refl
      ]

  released-slots :
      (bp : Breakpoint) (rest : List Breakpoint) (p : Result ⊤ × S)
      → length (released M bp rest p).table ≡ suc (length rest)
  unfolding released
  released-slots bp rest (err e, s) = refl
  released-slots bp rest (ok x, s) = refl

  pub remove-slots :
      (address kind : ℕ) (table : List Breakpoint) (s : S)
      → length (remove M address kind table s).table ≡ length table
  unfolding remove
  remove-slots address kind [] s = refl
  remove-slots address kind (bp ∷ table) s =
      if_slots (length table) (bp.used && ((bp.address == address) && (bp.kind == kind)))
        (released M bp table (M.patch address bp.original s))
        (after_slot bp (remove M address kind table s))
        (released-slots bp table (M.patch address bp.original s))
        (ap suc (remove-slots address kind table s))

  pub clear-slots : (table : List Breakpoint) (s : S) → length (clear M table s).0 ≡ length table
  unfolding clear
  clear-slots [] s = refl
  clear-slots (bp ∷ table) s = ap suc (clear-slots table _)

  -- No slot is in use any more.
  pub clear-IsFree : (table : List Breakpoint) (s : S) → All IsFree (clear M table s).0
  unfolding clear
  clear-IsFree [] s = tt
  clear-IsFree (bp ∷ table) s = (refl, clear-IsFree table _)

  pub clear-IsSound :
      (table : List Breakpoint) (s : S) → All IsSound table → All IsSound (clear M table s).0
  clear-IsSound table s h = free-IsSound (clear M table s).0 (clear-IsFree table s)

  -- A slot that a breakpoint of a valid kind at an aligned address is put in.
  module _ (address kind : ℕ) (valid : (kind ≡ 2) ⊎ (kind ≡ 4)) (aligned : address % kind ≡ 0) where
    taken-IsSound :
        (bp : Breakpoint) (rest : List Breakpoint) (p : Result ⊤ × S)
        → IsSound bp
        → All IsSound rest
        → All IsSound (taken M address kind bp rest p).table
    unfolding taken
    taken-IsSound bp rest (err e, s) h k = (h, k)
    taken-IsSound bp rest (ok x, s) h k = (inr (valid, aligned), k)

    saved-IsSound :
        (bp : Breakpoint) (rest : List Breakpoint) (p : Result (List ℕ) × S)
        → IsSound bp
        → All IsSound rest
        → All IsSound (saved M address kind bp rest p).table
    unfolding saved
    saved-IsSound bp rest (err e, s) h k = (h, k)
    saved-IsSound bp rest (ok bytes, s) h k =
        taken-IsSound (record bp { original = bytes }) rest (M.patch address (replacement kind) s) h
          k

    insert_into-IsSound :
        (table : List Breakpoint) (s : S)
        → All IsSound table
        → All IsSound (insert_into M address kind table s).table
    unfolding insert_into
    insert_into-IsSound [] s h = tt
    insert_into-IsSound (bp ∷ table) s h =
        if-IsSound bp.used (after_slot bp (insert_into M address kind table s))
          (saved M address kind bp table (M.read address kind s))
          (h.0, insert_into-IsSound table s h.1)
          (saved-IsSound bp table (M.read address kind s) h.0 h.1)

  pub insert-IsSound :
      (address kind : ℕ) (table : List Breakpoint) (s : S)
      → All IsSound table
      → All IsSound (insert M address kind table s).table
  unfolding insert
  insert-IsSound address kind table s h =
      elim (Bool-cases (((kind == 2) || (kind == 4)) && (address % kind == 0))) [
        | inl e ↦ let v = valid_lem e in rw e (insert_into-IsSound address kind v.0 v.1 table s h)
        | inr e ↦ rw e h
      ]
    where
      valid_lem :
          ((kind == 2) || (kind == 4)) && (address % kind == 0) ≡ true
          → ((kind ≡ 2) ⊎ (kind ≡ 4)) × (address % kind ≡ 0)
      valid_lem e = (ground arith, ground arith)

  released-IsSound :
      (bp : Breakpoint) (rest : List Breakpoint) (p : Result ⊤ × S)
      → IsSound bp
      → All IsSound rest
      → All IsSound (released M bp rest p).table
  unfolding released
  released-IsSound bp rest (err e, s) h k = (h, k)
  released-IsSound bp rest (ok x, s) h k = (inl refl, k)

  pub remove-IsSound :
      (address kind : ℕ) (table : List Breakpoint) (s : S)
      → All IsSound table
      → All IsSound (remove M address kind table s).table
  unfolding remove
  remove-IsSound address kind [] s h = tt
  remove-IsSound address kind (bp ∷ table) s h =
      if-IsSound (bp.used && ((bp.address == address) && (bp.kind == kind)))
        (released M bp table (M.patch address bp.original s))
        (after_slot bp (remove M address kind table s))
        (released-IsSound bp table (M.patch address bp.original s) h.0 h.1)
        (h.0, remove-IsSound address kind table s h.1)
