-- ===== src/Flash/Ch32v0/Alike.antt =====
-- The routines of src/flash_ch32v0.c on two targets that answer alike.
use libopenwch_tools.Prelude.{
  ℕ, zero, suc, ◌+◌, ◌-◌, ◌^◌, ◌<◌, ◌≤◌, ◌⊎◌, inl, inr, true, false, ◌&&◌, not, List, [], ◌∷◌, ◌==◌,
  ltb, leb, bit_and, bit_or, bit_not32, sub32, u32, length, replicate, arith, Bool-cases, ap, refl,
}
use libopenwch_tools.Prelude.Bits.{bit_and_le}
use libopenwch_tools.Status.{Action, usage, target, io, pure}
use libopenwch_tools.Status.Simulates.{
  Simulates, Any, pure-Simulates, fail-Simulates, bind-Simulates, then-Simulates, finally-Simulates,
  if-Simulates,
}
use libopenwch_tools.Dm.Memory.Alike.{Bytes, Block}
use libopenwch_tools.Target.{Chip}
use libopenwch_tools.Flash.Access.{Access}
use libopenwch_tools.Flash.Ch32v0
use libopenwch_tools.Flash.Ch32v0.Load.{join_word-sum}
use libopenwch_tools.Flash.Ch32v0.Old.{get_or-Bytes}

-- An address outside of RAM: the flash and its alias below, the flash controller above.
abbrev pub Clear : ℕ → Type 0
Clear a = (a < 0x2000_0000) ⊎ ((0x4000_0000 ≤ a) × (a < 2 ^ 32))

-- Two targets of which each access outside of RAM answers alike and keeps the states related.
pub record IsAlike {S T : Type 0} (R : S → T → Type 0) (A : Access S) (B : Access T) : Type 0 where
  pub reads : (a : ℕ) → Clear a → Simulates R (Any R) (A.read32 a) (B.read32 a)
  pub writes :
      (a v : ℕ) → Clear a → v < 2 ^ 32 → Simulates R (Any R) (A.write32 a v) (B.write32 a v)
  pub blocks :
      (a n : ℕ) → a + n ≤ 0x1000_0000 → Simulates R (Block n) (A.read_block a n) (B.read_block a n)

bit_and_below : (x y : ℕ) → y < 2 ^ 32 → bit_and x y < 2 ^ 32
bit_and_below x y h = omega (arith, bit_and_le x y)

ones-Block : (n : ℕ) → Block n (replicate n 0xff)
ones-Block zero = (tt, refl)
ones-Block (suc n) = let h = ones-Block n in ((omega arith, h.0), ap suc h.1)

merge-Block :
    (image : List ℕ) (start end : ℕ)
    → Bytes image
    → (old : List ℕ) (at n : ℕ) → Block n old
    → Block n (Ch32v0.merge image start end old at)
unfolding Ch32v0.merge
merge-Block image start end all [] at n h = h
merge-Block image start end all (b ∷ old) at n h =
    let g = get_or-Bytes image (sub32 at start) all in
    let k = merge-Block image start end all old (u32 (at + 1)) (n - 1) (h.0.1, omega arith) in
    ((ground arith, k.0), omega arith)

module _ {S T : Type 0} {R : S → T → Type 0} {A : Access S} {B : Access T}
    (alike : IsAlike R A B) where
  abbrev Alike : {X : Type 0} → (X → Type 0) → Action S X → Action T X → Type 0
  Alike P m n = Simulates R P m n

  unless_ready-Alike :
      (f : ℕ → Action S ℕ) (g : ℕ → Action T ℕ) (status : ℕ)
      → ((status : ℕ) → Alike (Any R) (f status) (g status))
      → Alike (Any R) (Ch32v0.unless_ready A f status) (Ch32v0.unless_ready B g status)
  unfolding Ch32v0.unless_ready
  unless_ready-Alike f g status k =
      elim (bit_and status 0x1 == 0)
        as (λ b.
          Alike (Any R) (elim b [ true ↦ pure status | false ↦ f status ])
            (elim b [ true ↦ pure status | false ↦ g status ])) [
              | true ↦ pure-Simulates R status tt
              | false ↦ k status
            ]

  poll-Alike : (n last : ℕ) → Alike (Any R) (Ch32v0.poll A n last) (Ch32v0.poll B n last)
  unfolding Ch32v0.poll
  poll-Alike zero last = pure-Simulates R last tt
  poll-Alike (suc n) last =
      bind-Simulates R (alike.reads Ch32v0.statr (omega arith))
        (λ status h. unless_ready-Alike (Ch32v0.poll A n) (Ch32v0.poll B n) status (poll-Alike n))

  wait_ready-Alike : Alike (Any R) (Ch32v0.wait_ready A) (Ch32v0.wait_ready B)
  unfolding Ch32v0.wait_ready Ch32v0.wait_for Ch32v0.finish_wait
  wait_ready-Alike =
      bind-Simulates R {f = Ch32v0.finish_wait A} {g = Ch32v0.finish_wait B}
        (poll-Alike Ch32v0.poll_limit 0)
        (λ status h.
          if-Simulates R (not (bit_and status Ch32v0.statr_bsy == 0)) (fail-Simulates R target) (
            if-Simulates R (not (bit_and status Ch32v0.statr_wrprterr == 0))
              (fail-Simulates R target) (pure-Simulates R tt tt)))

  ctlr_update-Alike :
      (set clear : ℕ)
      → Alike (Any R) (Ch32v0.ctlr_update A set clear) (Ch32v0.ctlr_update B set clear)
  unfolding Ch32v0.ctlr_update
  ctlr_update-Alike set clear = bind-Simulates R (alike.reads Ch32v0.ctlr (omega arith)) (λ value h.
      alike.writes Ch32v0.ctlr _ (omega arith)
        (bit_and_below (bit_or value set) (bit_not32 clear) (omega arith)))

  -- A write of a constant, or of an address, to one of the controller's registers.
  sets-Alike :
      (a v : ℕ)
      → 0x4000_0000 ≤ a
      → a < 2 ^ 32
      → v < 2 ^ 32
      → Alike (Any R) (A.write32 a v) (B.write32 a v)
  sets-Alike a v low high small = alike.writes a v (inr (low, high)) small

  unlock-Alike : Alike (Any R) (Ch32v0.unlock A) (Ch32v0.unlock B)
  unfolding Ch32v0.unlock
  unlock-Alike =
      then-Simulates R
        (sets-Alike Ch32v0.keyr Ch32v0.key1 (omega arith) (omega arith) (omega arith))
        (then-Simulates R
          (sets-Alike Ch32v0.keyr Ch32v0.key2 (omega arith) (omega arith) (omega arith))
          (then-Simulates R
            (sets-Alike Ch32v0.modekeyr Ch32v0.key1 (omega arith) (omega arith) (omega arith))
            (then-Simulates R
              (sets-Alike Ch32v0.modekeyr Ch32v0.key2 (omega arith) (omega arith) (omega arith))
              (bind-Simulates R (alike.reads Ch32v0.ctlr (omega arith)) (λ value h.
                if-Simulates R (not (bit_and value Ch32v0.ctlr_lock == 0)) (fail-Simulates R target)
                  (pure-Simulates R tt tt))))))

  erase_page_fast-Alike :
      (page : ℕ)
      → page < 2 ^ 32
      → Alike (Any R) (Ch32v0.erase_page_fast A page) (Ch32v0.erase_page_fast B page)
  unfolding Ch32v0.erase_page_fast
  erase_page_fast-Alike page h =
      finally-Simulates R
        (then-Simulates R wait_ready-Alike (
          then-Simulates R (ctlr_update-Alike _ 0) (
            then-Simulates R (sets-Alike Ch32v0.addr page (omega arith) (omega arith) h)
              (then-Simulates R (ctlr_update-Alike _ 0) wait_ready-Alike))))
        (ctlr_update-Alike 0 _)

  buffer_reset-Alike : Alike (Any R) (Ch32v0.buffer_reset A) (Ch32v0.buffer_reset B)
  unfolding Ch32v0.buffer_reset
  buffer_reset-Alike =
      finally-Simulates R
        (then-Simulates R (ctlr_update-Alike _ 0)
          (then-Simulates R (ctlr_update-Alike _ 0) wait_ready-Alike))
        (ctlr_update-Alike 0 _)

  buffer_load-Alike :
      (address word : ℕ)
      → address < 0x2000_0000
      → word < 2 ^ 32
      → Alike (Any R) (Ch32v0.buffer_load A address word) (Ch32v0.buffer_load B address word)
  unfolding Ch32v0.buffer_load
  buffer_load-Alike address word a w =
      finally-Simulates R
        (then-Simulates R (ctlr_update-Alike _ 0) (
          then-Simulates R (alike.writes address word (inl a) w)
            (then-Simulates R (ctlr_update-Alike _ 0) wait_ready-Alike)))
        (ctlr_update-Alike 0 _)

  program_page_fast-Alike :
      (page : ℕ)
      → page < 2 ^ 32
      → Alike (Any R) (Ch32v0.program_page_fast A page) (Ch32v0.program_page_fast B page)
  unfolding Ch32v0.program_page_fast
  program_page_fast-Alike page h =
      finally-Simulates R
        (then-Simulates R (ctlr_update-Alike _ 0) (
          then-Simulates R (sets-Alike Ch32v0.addr page (omega arith) (omega arith) h)
            (then-Simulates R (ctlr_update-Alike _ 0) wait_ready-Alike)))
        (ctlr_update-Alike 0 _)

  load_words-Alike :
      (bytes : List ℕ) (address : ℕ)
      → Bytes bytes
      → address + length bytes ≤ 0x1000_0000
      → Alike (Any R) (Ch32v0.load_words A bytes address) (Ch32v0.load_words B bytes address)
  unfolding Ch32v0.load_words
  load_words-Alike [] address h l = pure-Simulates R tt tt
  load_words-Alike (a ∷ []) address h l = pure-Simulates R tt tt
  load_words-Alike (a ∷ b ∷ []) address h l = pure-Simulates R tt tt
  load_words-Alike (a ∷ b ∷ c ∷ []) address h l = pure-Simulates R tt tt
  load_words-Alike (a ∷ b ∷ c ∷ d ∷ bytes) address h l =
      then-Simulates R
        (buffer_load-Alike address _ (omega arith)
          (let s = join_word-sum a b c d h.0 h.1.0 h.1.1.0 h.1.1.1.0 in omega arith))
        (load_words-Alike bytes (u32 (address + 4)) h.1.1.1.1 (omega arith))

  old_page-Alike :
      (page_size start end page : ℕ)
      → page + page_size ≤ 0x1000_0000
      → Alike
          (Block page_size)
          (Ch32v0.old_page A page_size start end page)
          (Ch32v0.old_page B page_size start end page)
  unfolding Ch32v0.old_page
  old_page-Alike page_size start end page h =
      if-Simulates R (leb start page && leb (u32 (page + page_size)) end)
        (pure-Simulates R (replicate page_size 0xff) (ones-Block page_size))
        (alike.blocks page page_size h)

  module _ (image : List ℕ) (all : Bytes image) where
    write_page-Alike :
        (page_size start end page : ℕ)
        → page + page_size ≤ 0x1000_0000
        → Alike
            (Any R)
            (Ch32v0.write_page A page_size image start end page)
            (Ch32v0.write_page B page_size image start end page)
    unfolding Ch32v0.write_page
    write_page-Alike page_size start end page h =
        bind-Simulates R (old_page-Alike page_size start end page h) (λ old k.
          let m = merge-Block image start end all old page page_size k in
          then-Simulates R (erase_page_fast-Alike page (omega arith)) (
            then-Simulates R buffer_reset-Alike (
              then-Simulates R
                (load_words-Alike (Ch32v0.merge image start end old page) page m.0 (omega arith))
                (program_page_fast-Alike page (omega arith)))))

    write_pages-Alike :
        (rounds page_size start end page : ℕ)
        → page_size ≤ 256
        → end ≤ 0x0fff_0000
        → Alike
            (Any R)
            (Ch32v0.write_pages A rounds page_size image start end page)
            (Ch32v0.write_pages B rounds page_size image start end page)
    unfolding Ch32v0.write_pages
    write_pages-Alike zero page_size start end page k h = fail-Simulates R io
    write_pages-Alike (suc rounds) page_size start end page k h = elim (Bool-cases (ltb page end)) [
      | inl e ↦
          rw (e, Ch32v0.write_pages)
            (then-Simulates R (write_page-Alike page_size start end page (ground arith))
              (write_pages-Alike rounds page_size start end (u32 (page + page_size)) k h))
      | inr e ↦ rw (e, Ch32v0.write_pages) (pure-Simulates R tt tt)
    ]

    -- The write answers alike on both targets where the image ends below the top of the flash's
    -- window.
    pub ch32v0_write-Alike :
        (c : Chip) (address : ℕ)
        → u32 (address + u32 (length image)) ≤ 0x0fff_0000
        → Alike
            (Any R)
            (Ch32v0.ch32v0_write A c address image)
            (Ch32v0.ch32v0_write B c address image)
    unfolding Ch32v0.ch32v0_write Ch32v0.bad_page_size
    ch32v0_write-Alike c address h = elim (Bool-cases (Ch32v0.bad_page_size c.erase_size)) [
      | inl e ↦ rw e (fail-Simulates R usage)
      | inr e ↦ rw e (
          then-Simulates R unlock-Alike
            (write_pages-Alike (length image + 2) c.erase_size address _ _ (ground arith) h))
    ]
