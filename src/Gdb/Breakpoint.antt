-- ===== src/Gdb/Breakpoint.antt =====
-- The table of software breakpoints (src/gdb_server.c), over what reads and patches memory.
pub mod Preserves
pub mod Restore
pub mod Slots
use libopenwch_tools.Prelude.{
  ℕ, ◌%◌, Bool, true, false, ◌&&◌, ◌||◌, List, [], ◌∷◌, ◌==◌, if◌then◌else◌,
}
use libopenwch_tools.Status.{Result, Action, ok, err, ⊤}

-- `struct gdb_breakpoint`; of `original` the `kind` bytes that are used, and what a failed read leaves
-- in those of a slot that is not in use is left out.
pub record Breakpoint : Type 0 where
  pub used : Bool
  pub address : ℕ
  pub kind : ℕ
  pub original : List ℕ

-- `gdb_mem_read` and `gdb_mem_patch`
pub record Memory (S : Type 0) : Type 0 where
  pub read : ℕ → ℕ → Action S (List ℕ)
  pub patch : ℕ → List ℕ → Action S ⊤

-- What an operation returns, and the target's state and the table after it.
pub record Outcome (S : Type 0) : Type 0 where
  pub answer : Bool
  pub state : S
  pub table : List Breakpoint

-- The slots before the one that a loop stops at stay.
abbrev pub after_slot : {S : Type 0} → Breakpoint → Outcome S → Outcome S
after_slot bp o = record { answer = o.answer; state = o.state; table = bp ∷ o.table }

-- The compressed and the full ebreak.
unfoldable pub replacement : ℕ → List ℕ
replacement kind = if kind == 4 then 0x73 ∷ 0x00 ∷ 0x10 ∷ 0x00 ∷ [] else 0x02 ∷ 0x90 ∷ []

module _ {S : Type 0} (M : Memory S) where
  -- With the memory patched, or not, the slot is taken.
  unfoldable pub taken : ℕ → ℕ → Breakpoint → List Breakpoint → Result ⊤ × S → Outcome S
  taken address kind bp rest (err _, s) = record { answer = false; state = s; table = bp ∷ rest }
  taken address kind bp rest (ok _, s) = record {
    answer = true;
    state = s;
    table = record bp { used = true; address = address; kind = kind } ∷ rest;
  }

  unfoldable pub saved : ℕ → ℕ → Breakpoint → List Breakpoint → Result (List ℕ) × S → Outcome S
  unfolding taken
  saved address kind bp rest (err _, s) = record { answer = false; state = s; table = bp ∷ rest }
  saved address kind bp rest (ok bytes, s) =
      taken address kind (record bp { original = bytes }) rest
        (M.patch address (replacement kind) s)

  -- From a slot of the table on: the first that is not in use is taken.
  unfoldable pub insert_into : ℕ → ℕ → List Breakpoint → S → Outcome S
  unfolding saved
  insert_into address kind [] s = record { answer = false; state = s; table = [] }
  insert_into address kind (bp ∷ table) s =
      let later = after_slot bp (insert_into address kind table s) in
      if bp.used then later else saved address kind bp table (M.read address kind s)

  -- `gdb_breakpoint_insert`
  unfoldable pub insert : ℕ → ℕ → List Breakpoint → S → Outcome S
  unfolding insert_into
  insert address kind table s =
      if ((kind == 2) || (kind == 4)) && (address % kind == 0)
      then insert_into address kind table s
      else record { answer = false; state = s; table = table }

  unfoldable pub released : Breakpoint → List Breakpoint → Result ⊤ × S → Outcome S
  released bp rest (err _, s) = record { answer = false; state = s; table = bp ∷ rest }
  released bp rest (ok _, s) = record {
    answer = true;
    state = s;
    table = record bp { used = false } ∷ rest;
  }

  -- `gdb_breakpoint_remove`
  unfoldable pub remove : ℕ → ℕ → List Breakpoint → S → Outcome S
  unfolding released
  remove address kind [] s = record { answer = false; state = s; table = [] }
  remove address kind (bp ∷ table) s =
      let later = after_slot bp (remove address kind table s) in
      if bp.used && ((bp.address == address) && (bp.kind == kind))
      then released bp table (M.patch address bp.original s)
      else later

  -- `gdb_breakpoints_clear`
  unfoldable pub clear : List Breakpoint → S → List Breakpoint × S
  clear [] s = ([], s)
  clear (bp ∷ table) s =
      let s' = if bp.used then (M.patch bp.address bp.original s).1 else s in
      let (table', s'') = clear table s' in (record bp { used = false } ∷ table', s'')
