-- ===== src/Gdb/Breakpoint/Preserves.antt =====
-- The breakpoint table's calls keep what the accesses to memory keep.
use libopenwch_tools.Prelude.{
  ℕ, ◌%◌, Bool, true, false, ◌&&◌, ◌||◌, List, [], ◌∷◌, ◌==◌, if◌then◌else◌, Bool-cases, inl, inr,
}
use libopenwch_tools.Status.{Result, ok, err, ⊤}
use libopenwch_tools.Status.Preserves.{Preserves}
use libopenwch_tools.Gdb.Breakpoint.{
  Breakpoint, Memory, Outcome, after_slot, replacement, taken, saved, insert_into, insert, released,
  remove, clear,
}

-- Each access keeps `P`.
pub record IsKept {S : Type 0} (P : S → Type 0) (M : Memory S) : Type 0 where
  pub reads : (a n : ℕ) → Preserves P (M.read a n)
  pub patches : (a : ℕ) (bytes : List ℕ) → Preserves P (M.patch a bytes)

module _ {S : Type 0} {P : S → Type 0} {M : Memory S} (kept : IsKept P M) where
  if-kept : (t : Bool) (o p : Outcome S) → P o.state → P p.state → P (if t then o else p).state
  if-kept true o p h k = h
  if-kept false o p h k = k

  taken-kept :
      (address kind : ℕ) (bp : Breakpoint) (rest : List Breakpoint) (p : Result ⊤ × S)
      → P p.1
      → P (taken M address kind bp rest p).state
  unfolding taken
  taken-kept address kind bp rest (err e, s) h = h
  taken-kept address kind bp rest (ok x, s) h = h

  saved-kept :
      (address kind : ℕ) (bp : Breakpoint) (rest : List Breakpoint) (p : Result (List ℕ) × S)
      → P p.1
      → P (saved M address kind bp rest p).state
  unfolding saved
  saved-kept address kind bp rest (err e, s) h = h
  saved-kept address kind bp rest (ok bytes, s) h =
      taken-kept address kind (record bp { original = bytes }) rest
        (M.patch address (replacement kind) s) ((kept.patches address (replacement kind)).run s h)

  insert_into-kept :
      (address kind : ℕ) (table : List Breakpoint) (s : S)
      → P s
      → P (insert_into M address kind table s).state
  unfolding insert_into
  insert_into-kept address kind [] s h = h
  insert_into-kept address kind (bp ∷ table) s h =
      if-kept bp.used (after_slot bp (insert_into M address kind table s))
        (saved M address kind bp table (M.read address kind s))
        (insert_into-kept address kind table s h)
        (saved-kept address kind bp table (M.read address kind s)
          ((kept.reads address kind).run s h))

  pub insert-kept :
      (address kind : ℕ) (table : List Breakpoint) (s : S)
      → P s
      → P (insert M address kind table s).state
  unfolding insert
  insert-kept address kind table s h =
      elim (Bool-cases (((kind == 2) || (kind == 4)) && (address % kind == 0))) [
        | inl e ↦ rw e (insert_into-kept address kind table s h)
        | inr e ↦ rw e h
      ]

  released-kept :
      (bp : Breakpoint) (rest : List Breakpoint) (p : Result ⊤ × S)
      → P p.1
      → P (released M bp rest p).state
  unfolding released
  released-kept bp rest (err e, s) h = h
  released-kept bp rest (ok x, s) h = h

  pub remove-kept :
      (address kind : ℕ) (table : List Breakpoint) (s : S)
      → P s
      → P (remove M address kind table s).state
  unfolding remove
  remove-kept address kind [] s h = h
  remove-kept address kind (bp ∷ table) s h =
      if-kept (bp.used && ((bp.address == address) && (bp.kind == kind)))
        (released M bp table (M.patch address bp.original s))
        (after_slot bp (remove M address kind table s))
        (released-kept bp table (M.patch address bp.original s)
          ((kept.patches address bp.original).run s h))
        (remove-kept address kind table s h)

  patched-kept :
      (t : Bool) (address : ℕ) (bytes : List ℕ) (s : S)
      → P s
      → P (if t then (M.patch address bytes s).1 else s)
  patched-kept true address bytes s h = (kept.patches address bytes).run s h
  patched-kept false address bytes s h = h

  pub clear-kept : (table : List Breakpoint) (s : S) → P s → P (clear M table s).1
  unfolding clear
  clear-kept [] s h = h
  clear-kept (bp ∷ table) s h = clear-kept table _ (patched-kept bp.used bp.address bp.original s h)
