-- ===== src/Sim/Patching.antt =====
-- Patches of the flash by the GDB server (src/gdb_server.c), down to the flash of the simulated
-- target (tests/sim_programmer.c).
use libopenwch_tools.Prelude.Bits.{bit_and_high}
use libopenwch_tools.Prelude.{
  ℕ, ◌+◌, ◌-◌, ◌*◌, ◌/◌, ◌%◌, ◌^◌, ◌<◌, ◌≤◌, ◌≡◌, refl, sym, ap, ◌∙◌, ◌&&◌, ◌||◌, true, inl, inr,
  List, ◌==◌, leb, ltb, get_or, length, if◌then◌else◌, All, arith, bit_and, Bool-cases,
}
use mathlib.Core.Path.{subst}
use libopenwch_tools.Status.{Action, Result, ok, ⊤, go_on, usage, fail, ◌>>=◌}
use libopenwch_tools.Status.Simulates.{Simulates, Any, bind-Simulates}
use libopenwch_tools.Target.{Chip, ch32v0}
use libopenwch_tools.Dm.Memory.{read_block, write16, write32}
use libopenwch_tools.Dm.Memory.Alike.{Bytes}
use libopenwch_tools.Dm.Memory.Block.{
  bytes_from, length-bytes_from, get_or-bytes_from, read_block_by-Reads,
}
use libopenwch_tools.Flash.Access.{of_dmi}
use libopenwch_tools.Flash.Range.{normalise, range_ok}
use libopenwch_tools.Flash.Range.Alias.{normalise-high}
use libopenwch_tools.Flash.Ch32v0.Old.{get_or-Bytes}
use libopenwch_tools.Flash.Image.{flash_write}
use libopenwch_tools.Flash.Image.Alike.{flash_write-Alike}
use libopenwch_tools.Flash.Image.Program.{IsPlaced, read_sim, flash_write-image}
use libopenwch_tools.Sim.{Sim, access}
use libopenwch_tools.Sim.Read.{held, access_read-IsReadable}
use libopenwch_tools.Sim.Core.{Core, core_dmi}
use libopenwch_tools.Sim.Core.Access.{Shows, core-IsAlike}
use libopenwch_tools.Sim.Programming.{IsIdle}
use libopenwch_tools.Gdb.Patch.{
  addr_is_flash, normalise_flash, page_start, patched, flash_patch, mem_patch, half_of, word_of,
}
use libopenwch_tools.Gdb.Patch.Page.{
  page_start_lem, bytes_from-Bytes, in_page, outside_page, get_or-patched, length-patched,
  patched-Bytes,
}

-- A part with the algorithm of the CH32V00x, whose flash is at 0x08000000 and has pages of 64 bytes.
pub record IsPaged (c : Chip) : Type 0 where
  pub algo : c.algo ≡ ch32v0
  pub erase : c.erase_size ≡ 64
  pub base : c.flash_base ≡ 0x0800_0000

-- The simulated core of the part, with its flash and controller idle.
pub record Resting (c : Chip) (k : Core) : Type 0 where
  pub size : c.flash_size ≡ k.sim.flash_size
  pub shows : Shows k (k.sim)
  pub idle : IsIdle (k.sim)

-- The bytes lie in one page of the flash.
pub record InPage (c : Chip) (address : ℕ) (bytes : List ℕ) : Type 0 where
  pub low : 0x0800_0000 ≤ address
  pub high : address + length bytes ≤ 0x0800_0000 + c.flash_size
  pub page : address % 64 + length bytes ≤ 64
  pub some_bytes : 0 < length bytes
  pub all : All (λ b. b < 256) bytes

IsPlaced-lt :
    (f : ℕ → ℕ) (a : ℕ) (bytes : List ℕ) (g : ℕ → ℕ)
    → IsPlaced f a bytes g
    → ((x : ℕ) → f x < 256)
    → Bytes bytes
    → (x : ℕ) → g x < 256
IsPlaced-lt f a bytes g h old all x =
    let o = old x in
    let v = h x in let b = get_or-Bytes bytes (x + 0x0800_0000 - a) all in ground arith

module _ (c : Chip) (k : Core) (address : ℕ) (bytes : List ℕ) (paged : IsPaged c)
    (resting : Resting c k) (inside : InPage c address bytes) where
  abbrev s : Sim
  s = k.sim

  abbrev start : ℕ
  start = address / 64 * 64

  abbrev page : List ℕ
  page = bytes_from (held s.flash) start 64

  below : (address < 2 ^ 32) × (start + 64 ≤ 0x0800_0000 + s.flash_size)
  below =
      let w = resting.idle.window in
      let p = resting.idle.pages in
      let e = resting.size in
      let h = inside.high in
      let l = inside.low in let n = inside.some_bytes in (omega arith, omega arith)

  -- What the flash branch does, over any reader and writer of the flash.
  abbrev rewrite : {S : Type 0} → (ℕ → ℕ → Action S (List ℕ)) → (List ℕ → Action S ⊤) → Action S ⊤
  rewrite read write = read start 64 >>= (λ old. write (patched old (address - start) bytes))

  is_flash_address : addr_is_flash c address ≡ true
  unfolding addr_is_flash range_ok
  is_flash_address =
      let n = normalise-high c address (let l = inside.low in omega arith) below.0 in
      let b = paged.base in
      let e = resting.size in
      let w = resting.idle.window in
      let h = inside.high in
      let l = inside.low in let some_ = inside.some_bytes in ground (arith, n)

  start_lem : page_start address c.erase_size ≡ start
  start_lem = ap (page_start address) paged.erase ∙ page_start_lem address 6 (omega arith) below.0

  normalise-start : (normalise_flash c start ≡ start) × (normalise c start ≡ start)
  unfolding normalise_flash
  normalise-start = (
    own,
    normalise-high c start (let l = inside.low in omega arith) (let b = below.0 in omega arith),
  )
    where
      own : normalise_flash c start ≡ start
      own =
          let l = inside.low in
          let b = below.0 in
          let e : bit_and start 0xff00_0000 ≡ start / 2 ^ 24 * 2 ^ 24 =
            bit_and_high 24 32 start (omega arith) (omega arith) in
          ground (arith, e)

  mem_patch_lem :
      mem_patch core_dmi c address bytes
      ≡ rewrite (read_block core_dmi) (flash_write (of_dmi core_dmi) c start)
  unfolding mem_patch flash_patch
  mem_patch_lem =
      ap (λ b. if b then flash_patch core_dmi c address bytes else other) is_flash_address
      ∙ (λ i. of_page (paged.erase i) (start_lem i))
      ∙ ap
          (λ n.
            read_block core_dmi start 64
            >>= (λ old. flash_write (of_dmi core_dmi) c n (patched old (address - start) bytes)))
          normalise-start.0
    where
      other : Action Core ⊤
      other =
          if length bytes == 2
          then write16 core_dmi address (half_of bytes)
          else if length bytes == 4
          then write32 core_dmi address (word_of bytes)
          else fail usage

      of_page : ℕ → ℕ → Action Core ⊤
      of_page size first = if (size == 0) || ltb 4096 size then fail usage else (do
        old ← read_block core_dmi first size
        flash_write (of_dmi core_dmi) c (normalise_flash c first)
            (patched old (address - first) bytes))

  rewrite-Simulates :
      Simulates Shows
        (Any Shows)
        (rewrite (read_block core_dmi) (flash_write (of_dmi core_dmi) c start))
        (rewrite read_sim (flash_write access c start))
  rewrite-Simulates =
      let b = below in
      let w = resting.idle.window in
      let p = inside.page in
      let l = inside.low in
      bind-Simulates Shows
        {f = λ old. flash_write (of_dmi core_dmi) c start (patched old (address - start) bytes)}
        {g = λ old. flash_write access c start (patched old (address - start) bytes)}
        (core-IsAlike.blocks start 64 (omega arith))
        (λ old block.
          let old_len = block.1 in
          let len = length-patched old bytes (address - start) (omega arith) in
          flash_write-Alike core-IsAlike c start (patched old (address - start) bytes)
            (patched-Bytes old bytes (address - start) block.0 inside.all)
            (omega (arith, len, normalise-start.1)))

  abbrev image : List ℕ
  image = patched page (address - start) bytes

  length-image : length image ≡ 64
  length-image =
      let p = inside.page in
      let len = length-bytes_from (held s.flash) start 64 in
      length-patched page bytes (address - start) (omega (arith, len)) ∙ len

  image_accepted : range_ok c start (length image) ≡ true
  unfolding range_ok
  image_accepted =
      let n = normalise-start.1 in
      let b = paged.base in
      let e = resting.size in
      let f = below in let l = inside.low in let i = length-image in ground (arith, n, i, b, e, f)

  page-Bytes : Bytes page
  page-Bytes = bytes_from-Bytes (held s.flash) start 64 (λ x. resting.idle.bytes (x - 0x0800_0000))

  -- The page that is written holds the bytes at their place, and all else as before.
  placed :
      (g : ℕ → ℕ) → IsPlaced s.flash (normalise c start) image g → IsPlaced s.flash address bytes g
  placed g h x =
      let l = inside.low in
      let p = inside.page in
      let i : ℕ = x + 0x0800_0000 - start in
      let len = length-bytes_from (held s.flash) start 64 in
      let v = h x in
      let v' = rw (normalise-start.1, length-image) at v in
      let q = get_or-patched page bytes (address - start) i (omega (arith, len)) in
      elim (Bool-cases (leb start (x + 0x0800_0000) && ltb (x + 0x0800_0000) (start + 64))) [
        | inl e ↦
            let v'' = rw e at v' in
            let place : start + i - 0x0800_0000 ≡ x = ground arith in
            let old : get_or page i 0 ≡ s.flash x =
              get_or-bytes_from (held s.flash) start 64 i (ground arith) ∙ ap s.flash place in
            let at : i - (address - start) ≡ x + 0x0800_0000 - address = ground arith in
            let same =
              in_page start address (length bytes) (x + 0x0800_0000) (omega arith) (ground arith) in
            v'' ∙ q ∙ rw (same, at, old) refl
        | inr e ↦
            let v'' = rw e at v' in
            let out =
              outside_page start address (length bytes) (x + 0x0800_0000) (omega arith)
                (omega arith) e in
            v'' ∙ rw out refl
      ]

  -- The rewritten page, in the flash alone.
  rewritten :
      (t : Sim) × (rewrite read_sim (flash_write access c start) s ≡ (ok tt, t))
      × IsPlaced s.flash address bytes t.flash
      × (t.flash_size ≡ s.flash_size)
      × IsIdle t
  rewritten =
      let idle = resting.idle in
      let window = idle.window in
      let b = below in
      let l = inside.low in
      let len = length-image in
      let readable = access_read-IsReadable s idle.window idle.bytes in
      let r = read_block_by-Reads readable 64 start s refl (omega arith) (omega arith) in
      let w =
        flash_write-image c s start image paged.algo paged.erase paged.base resting.size
          idle.ctlr_zero idle.not_busy idle.no_errors idle.bytes idle.window idle.pages
          (patched-Bytes page bytes (address - start) page-Bytes inside.all) (omega arith)
          (omega arith) (omega arith) image_accepted in
      (
        w.0,
        ap (go_on (λ old. flash_write access c start (patched old (address - start) bytes)))
              (r.1 ∙ ap (λ (u : Sim). (ok page, u)) r.2)
            ∙ w.1,
        placed w.0.flash w.3,
        w.5,
        record {
          ctlr_zero = w.6;
          not_busy = w.7;
          no_errors = w.4;
          bytes = λ x.
              IsPlaced-lt s.flash address bytes w.0.flash (placed w.0.flash w.3) idle.bytes
                inside.all x;
          window = omega (arith, w.5);
          pages = ap (λ n. n % 64) w.5 ∙ idle.pages;
        },
      )

-- `gdb_mem_patch` of bytes within one page of the flash, at the flash's own address, against the
-- simulated core of a CH32V00x at rest: through the debug module, the program buffer and the flash
-- controller it ends with `ok`, the bytes are in the flash from the address on and every other byte
-- is what it was, and the core is at rest again, its controller without an error.
pub mem_patch-IsPlaced :
    (c : Chip) (k : Core) (address : ℕ) (bytes : List ℕ)
    → IsPaged c
    → Resting c k
    → InPage c address bytes
    → (k' : Core) × (mem_patch core_dmi c address bytes k ≡ (ok tt, k'))
      × IsPlaced k.sim.flash address bytes k'.sim.flash
      × Resting c k'
mem_patch-IsPlaced c k address bytes paged resting inside =
    let w = rewritten c k address bytes paged resting inside in
    let f =
      (rewrite-Simulates c k address bytes paged resting inside).run k (k.sim) resting.shows in
    let run : Result ⊤ × Core =
      rewrite c k address bytes paged resting inside (read_block core_dmi)
        (flash_write (of_dmi core_dmi) c (address / 64 * 64)) k in
    let shows : Shows run.1 w.0 =
      subst (Shows run.1) (ap (λ (q : Result ⊤ × Sim). q.1) w.1) f.related in
    (
      run.1,
      ap (λ (m : Action Core ⊤). m k) (mem_patch_lem c k address bytes paged resting inside)
          ∙ ap (λ (x : Result ⊤). (x, run.1)) (f.same ∙ ap (λ (q : Result ⊤ × Sim). q.0) w.1),
      subst (λ (u : Sim). IsPlaced k.sim.flash address bytes u.flash) (sym shows.flash) w.2,
      record {
        size = resting.size ∙ sym w.3 ∙ ap (λ (u : Sim). u.flash_size) (sym shows.flash);
        shows = subst (Shows run.1) (sym shows.flash) shows;
        idle = subst IsIdle (sym shows.flash) w.4;
      },
    )
