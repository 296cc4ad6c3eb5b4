-- ===== src/Sim/Breakpoints.antt =====
-- The breakpoints of the GDB server (src/gdb_server.c) in the flash of the simulated target
-- (tests/sim_programmer.c).
use libopenwch_tools.Prelude.{
  ℕ, zero, suc, ◌+◌, ◌-◌, ◌%◌, ◌<◌, ◌≤◌, ◌≡◌, refl, sym, ap, ap₂, ◌∙◌, ◌&&◌, ◌==◌, true, false, ◌⊎◌,
  inl, inr, List, [], ◌∷◌, leb, ltb, get_or, length, if◌then◌else◌, All, arith, Bool-cases,
}
use mathlib.Core.Path.{subst}
use libopenwch_tools.Status.{Result, ok}
use libopenwch_tools.Target.{Chip}
use libopenwch_tools.Dm.Memory.{read_block}
use libopenwch_tools.Dm.Memory.Block.{bytes_from, read_block_by-Reads}
use libopenwch_tools.Flash.Image.Program.{IsPlaced, read_sim}
use libopenwch_tools.Sim.{Sim}
use libopenwch_tools.Sim.Read.{held, access_read-IsReadable}
use libopenwch_tools.Sim.Core.{Core, core_dmi}
use libopenwch_tools.Sim.Core.Access.{Shows, core-IsAlike}
use libopenwch_tools.Sim.Programming.{IsIdle}
use libopenwch_tools.Sim.Patching.{IsPaged, Resting, mem_patch-IsPlaced}
use libopenwch_tools.Gdb.Patch.{memory, mem_read}
use libopenwch_tools.Gdb.Breakpoint.{Breakpoint, Outcome, replacement, insert, remove}
use libopenwch_tools.Gdb.Breakpoint.Restore.{IsMemory, IsOther, is_full, uses, insert-remove}

-- A range within one page of the flash.
record Fits (c : Chip) (address n : ℕ) : Type 0 where
  low : 0x0800_0000 ≤ address
  high : address + n ≤ 0x0800_0000 + c.flash_size
  page : address % 64 + n ≤ 64
  some_bytes : 0 < n

-- What the flash holds, by address, and 0 below it.
abbrev flash_at : Core → ℕ → ℕ
flash_at k x = if leb 0x0800_0000 x then k.sim.flash (x - 0x0800_0000) else 0

bytes_from-flash_at :
    (k : Core) (a n : ℕ)
    → 0x0800_0000 ≤ a
    → bytes_from (held k.sim.flash) a n ≡ bytes_from (flash_at k) a n
bytes_from-flash_at k a zero l = refl
bytes_from-flash_at k a (suc n) l =
    let e : leb 0x0800_0000 a ≡ true = ground arith in
    let here : held k.sim.flash a ≡ flash_at k a = rw e refl in
    ap₂ (λ b rest. b ∷ rest) here (bytes_from-flash_at k (a + 1) n (omega arith))

module _ (c : Chip) (paged : IsPaged c) where
  mem_read_lem :
      (a n : ℕ) (k : Core)
      → Resting c k
      → Fits c a n
      → (k' : Core) × (mem_read core_dmi c a n k ≡ (ok (bytes_from (flash_at k) a n), k'))
        × ((x : ℕ) → flash_at k' x ≡ flash_at k x)
        × Resting c k'
  unfolding mem_read
  mem_read_lem a n k resting fits =
      let idle = resting.idle in
      let window = idle.window in
      let size = resting.size in
      let low = fits.low in
      let high = fits.high in
      let r =
        read_block_by-Reads (access_read-IsReadable (k.sim) idle.window idle.bytes) n a (k.sim) refl
          low (omega arith) in
      let f = (core-IsAlike.blocks a n (omega arith)).run k (k.sim) resting.shows in
      let run : Result (List ℕ) × Core = read_block core_dmi a n k in
      let e : read_sim a n (k.sim) ≡ (ok (bytes_from (held k.sim.flash) a n), k.sim) =
        r.1 ∙ ap (λ (u : Sim). (ok (bytes_from (held k.sim.flash) a n), u)) r.2 in
      let shows : Shows run.1 (k.sim) =
        subst (Shows run.1) (ap (λ (q : Result (List ℕ) × Sim). q.1) e) f.related in
      (
        run.1,
        ap (λ (x : Result (List ℕ)). (x, run.1))
            (f.same
              ∙ ap (λ (q : Result (List ℕ) × Sim). q.0) e
              ∙ ap ok (bytes_from-flash_at k a n low)),
        λ x.
            ap (λ (u : Sim). if leb 0x0800_0000 x then u.flash (x - 0x0800_0000) else 0)
              shows.flash,
        record {
          size = size ∙ ap (λ (u : Sim). u.flash_size) (sym shows.flash);
          shows = subst (Shows run.1) (sym shows.flash) shows;
          idle = subst IsIdle (sym shows.flash) idle;
        },
      )

  -- By address rather than by place in the flash.
  by_address :
      (k k' : Core) (a : ℕ) (bytes : List ℕ)
      → 0x0800_0000 ≤ a
      → IsPlaced k.sim.flash a bytes k'.sim.flash
      → (x : ℕ)
      → flash_at k' x
        ≡ (if leb a x && ltb x (a + length bytes) then get_or bytes (x - a) 0 else flash_at k x)
  by_address k k' a bytes low placed x = elim (Bool-cases (leb 0x0800_0000 x)) [
    | inl e ↦
        let v = placed (x - 0x0800_0000) in
        let back : x - 0x0800_0000 + 0x0800_0000 ≡ x = ground arith in
        let w = rw back at v in rw e w
    | inr e ↦
        let out : leb a x && ltb x (a + length bytes) ≡ false = ground arith in rw (e, out) refl
  ]

  core-IsMemory : IsMemory (memory core_dmi c) (Resting c) (Fits c) flash_at
  core-IsMemory = record {
    byte_lt = λ k resting x. (let b = resting.idle.bytes (x - 0x0800_0000) in ground arith);
    reads = λ a n k resting fits. mem_read_lem a n k resting fits;
    patches = λ a bytes k resting fits all.
        let r = mem_patch-IsPlaced c k a bytes paged resting (record {
          low = fits.low;
          high = fits.high;
          page = fits.page;
          some_bytes = fits.some_bytes;
          all = all;
        }) in
        (r.0, r.1, by_address k r.0 a bytes fits.low r.2, r.3);
  }

-- The instruction of two or four bytes.
abbrev pub ebreak : ℕ → List ℕ
ebreak kind = if kind == 4 then 0x73 ∷ 0x00 ∷ 0x10 ∷ 0x00 ∷ [] else 0x02 ∷ 0x90 ∷ []

ebreak_lem :
    (kind : ℕ)
    → (kind ≡ 2) ⊎ (kind ≡ 4)
    → (replacement kind ≡ ebreak kind) × (length (ebreak kind) ≡ kind)
unfolding replacement
ebreak_lem kind (inl e) = (refl, rw e refl)
ebreak_lem kind (inr e) = (refl, rw e refl)

flash_at_lem : (k : Core) (x : ℕ) → flash_at k (x + 0x0800_0000) ≡ k.sim.flash x
flash_at_lem k x =
    let e : leb 0x0800_0000 (x + 0x0800_0000) ≡ true = ground arith in
    let back : x + 0x0800_0000 - 0x0800_0000 ≡ x = omega arith in rw (e, back) refl

to_IsPlaced :
    (k k' : Core) (address kind : ℕ)
    → (replacement kind ≡ ebreak kind) × (length (ebreak kind) ≡ kind)
    → ((x : ℕ)
        → flash_at k' x ≡ (
            if leb address x && ltb x (address + kind)
            then get_or (replacement kind) (x - address) 0
            else flash_at k x))
    → IsPlaced k.sim.flash address (ebreak kind) k'.sim.flash
to_IsPlaced k k' address kind e h x =
    let len = sym e.1 in
    sym (flash_at_lem k' x) ∙ h (x + 0x0800_0000) ∙ (λ i.
      if leb address (x + 0x0800_0000) && ltb (x + 0x0800_0000) (address + len i)
      then get_or (e.0 i) (x + 0x0800_0000 - address) 0
      else flash_at_lem k x i)

-- A breakpoint set and then removed in the flash of the simulated CH32V00x at rest, at an aligned
-- address of the flash's own, over the debug module, the program buffer and the flash controller:
-- with a slot free, and none in use for the same kind at the address, setting it succeeds and puts
-- the ebreak of two or four bytes there and changes nothing else in the flash; removing it succeeds,
-- gives every byte of the flash what it held before, and frees the slot that was taken.
pub insert-remove_flash :
    (c : Chip) (k : Core) (address kind : ℕ) (table : List Breakpoint)
    → IsPaged c
    → Resting c k
    → 0x0800_0000 ≤ address
    → address + kind ≤ 0x0800_0000 + c.flash_size
    → (kind ≡ 2) ⊎ (kind ≡ 4)
    → address % kind ≡ 0
    → is_full table ≡ false
    → All (IsOther address kind) table
    → let set = insert (memory core_dmi c) address kind table k in
      let unset = remove (memory core_dmi c) address kind set.table set.state in
      (set.answer ≡ true)
      × IsPlaced k.sim.flash address (ebreak kind) set.state.sim.flash
      × (unset.answer ≡ true)
      × ((x : ℕ) → unset.state.sim.flash x ≡ k.sim.flash x)
      × (uses unset.table ≡ uses table)
insert-remove_flash c k address kind table paged resting low high size aligned room others =
    let fits : Fits c address kind = record {
      low = low;
      high = high;
      page = in_page size;
      some_bytes = not_empty size;
    } in
    let r =
      insert-remove (core-IsMemory c paged) address kind table k resting fits size aligned room
        others in
    let set : Outcome Core = insert (memory core_dmi c) address kind table k in
    let unset : Core = (remove (memory core_dmi c) address kind set.table set.state).state in
    (
      r.0,
      to_IsPlaced k set.state address kind (ebreak_lem kind size) r.1,
      r.2,
      λ x. sym (flash_at_lem unset x) ∙ r.3 (x + 0x0800_0000) ∙ flash_at_lem k x,
      r.4,
    )
  where
    in_page : (kind ≡ 2) ⊎ (kind ≡ 4) → address % 64 + kind ≤ 64
    in_page (inl e) = let a : address % 2 ≡ 0 = rw e at aligned in omega (arith, e)
    in_page (inr e) = let a : address % 4 ≡ 0 = rw e at aligned in omega (arith, e)

    not_empty : (kind ≡ 2) ⊎ (kind ≡ 4) → 0 < kind
    not_empty (inl e) = omega (arith, e)
    not_empty (inr e) = omega (arith, e)
