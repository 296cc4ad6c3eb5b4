-- ===== src/Flash/Image/Program.antt =====
-- Writing an image and then verifying it (src/flash.c over src/flash_ch32v0.c), against the flash of
-- the simulated target.
use libopenwch_tools.Prelude.{
  ℕ, suc, ◌+◌, ◌-◌, ◌%◌, ◌^◌, ◌<◌, ◌≤◌, ◌≡◌, refl, sym, ap, ◌∙◌, inl, inr, true, false, ◌&&◌, not,
  List, [], ◌∷◌, arith, ◌==◌, ltb, leb, if◌then◌else◌, get_or, length, All,
}
use libopenwch_tools.Status.{Action, usage, not_implemented, ok, fail, go_on, ⊤, ◌>>◌}
use libopenwch_tools.Target.{Chip, FlashAlgo, unsupported, ch32v0}
use libopenwch_tools.Dm.Memory.{read_block_by}
use libopenwch_tools.Dm.Memory.Block.{bytes_from, read_block_by-Reads}
use libopenwch_tools.Sim.{Sim, access, access_read}
use libopenwch_tools.Sim.Read.{held, access_read-IsReadable}
use libopenwch_tools.Flash.Range.{normalise, range_ok}
use libopenwch_tools.Flash.Range.Alias.{normalise-Word}
use libopenwch_tools.Flash.Ch32v0.{ch32v0_write}
use libopenwch_tools.Flash.Ch32v0.Old.{get_or-Bytes}
use libopenwch_tools.Flash.Ch32v0.Whole.{ch32v0_write-image}
use libopenwch_tools.Flash.Image.{flash_write, flash_verify}
use libopenwch_tools.Flash.Image.Verify.{IsReader, flash_verify-Decides}

bytes_from-get_or :
    (image : List ℕ) (mem : ℕ → ℕ) (a : ℕ)
    → ((i : ℕ) → i < length image → mem (a + i) ≡ get_or image i 0)
    → image ≡ bytes_from mem a (length image)
bytes_from-get_or [] mem a h = refl
bytes_from-get_or (b ∷ image) mem a h =
    let e : a + 0 ≡ a = omega arith in
    let first : b ≡ mem a = sym (h 0 (omega arith)) ∙ ap mem e in
    let rest =
      bytes_from-get_or image mem (a + 1) (λ i l.
        let f : a + 1 + i ≡ a + suc i = omega arith in ap mem f ∙ h (suc i) (omega arith)) in
    λ i. first i ∷ rest i

-- The image's bytes from an address on, and what was held before everywhere else; the flash starts
-- at 0x08000000.
abbrev pub IsPlaced : (ℕ → ℕ) → ℕ → List ℕ → (ℕ → ℕ) → Type 0
IsPlaced f start image g =
    (x : ℕ)
    → g x ≡ (
        if leb start (x + 0x0800_0000) && ltb (x + 0x0800_0000) (start + length image)
        then get_or image (x + 0x0800_0000 - start) 0
        else f x)

-- The memory of the simulated core, a block at a time.
abbrev pub read_sim : ℕ → ℕ → Action Sim (List ℕ)
read_sim a n = read_block_by access_read a n

abbrev dispatch : Chip → ℕ → List ℕ → FlashAlgo → Action Sim ⊤
dispatch c address image algo = elim algo [
  | unsupported ↦ fail not_implemented
  | ch32v0 ↦
      if not (range_ok c address (length image))
      then fail usage
      else ch32v0_write access c (normalise c address) image
]

-- A write that passes the checks of `wl_flash_write` is the algorithm's.
flash_write_lem :
    (c : Chip) (address : ℕ) (image : List ℕ)
    → c.algo ≡ ch32v0
    → 0 < length image
    → range_ok c address (length image) ≡ true
    → flash_write access c address image ≡ ch32v0_write access c (normalise c address) image
unfolding flash_write
flash_write_lem c address image algo some_bytes accepted =
    let e : (length image == 0) ≡ false = ground arith in
    rw e (
      ap (dispatch c address image) algo
      ∙ ap
          (λ fits.
            if not fits then fail usage else ch32v0_write access c (normalise c address) image)
          accepted)

module _ (c : Chip) (s : Sim) (address : ℕ) (image : List ℕ) (algo : c.algo ≡ ch32v0)
    (erase : c.erase_size ≡ 64) (base : c.flash_base ≡ 0x0800_0000)
    (size : c.flash_size ≡ s.flash_size) (ctlr_zero : s.ctlr ≡ 0) (idle : s.busy_reads ≡ 0)
    (no_errors : s.program_errors ≡ 0) (bytes : (x : ℕ) → s.flash x < 256)
    (window : s.flash_size ≤ 2 ^ 24) (pages : s.flash_size % 64 ≡ 0)
    (all : All (λ b. b < 256) image) (some_bytes : 0 < length image) (word : address < 2 ^ 32)
    (object : length image < 2 ^ 63) (accepted : range_ok c address (length image) ≡ true) where
  abbrev pub start : ℕ
  start = normalise c address

  pub range_lem : (0x0800_0000 ≤ start) × (start + length image ≤ 0x0800_0000 + s.flash_size)
  unfolding range_ok
  range_lem = let w = normalise-Word c address word in ground (arith, base, size, w)

  -- The image is in the flash from its start on, what the flash held is everywhere else, no error
  -- has been seen, the controller is idle, and the verification agrees.
  pub flash_write-image :
      (s' : Sim) × (flash_write access c address image s ≡ (ok tt, s'))
      × (flash_verify read_sim c address image s' ≡ (ok tt, s'))
      × IsPlaced s.flash start image s'.flash
      × (s'.program_errors ≡ 0)
      × (s'.flash_size ≡ s.flash_size)
      × (s'.ctlr ≡ 0)
      × (s'.busy_reads ≡ 0)
  flash_write-image =
      let r =
        ch32v0_write-image c s start image erase ctlr_zero idle no_errors bytes window pages all
          range_lem.0 range_lem.1 in
      let t : Sim = r.0 in
      let t_bytes : (x : ℕ) → t.flash x < 256 = λ x.
        (let b = bytes x in
          let g = get_or-Bytes image (x + 0x0800_0000 - start) all in
          let v = r.2 x in ground arith) in
      let t_size : t.flash_size ≡ s.flash_size = r.4 in
      let readable = access_read-IsReadable t (omega arith) t_bytes in
      let reader : IsReader read_sim (λ u. u ≡ t) (held t.flash) 0x0800_0000
          (0x0800_0000 + t.flash_size) =
        λ a n u inv l h. read_block_by-Reads readable n a u inv l h in
      let same : image ≡ bytes_from (held t.flash) start (length image) =
        bytes_from-get_or image (held t.flash) start (λ i l.
          (let v = r.2 (start + i - 0x0800_0000) in
            let e : start + i - 0x0800_0000 + 0x0800_0000 ≡ start + i =
              omega (arith, range_lem.0) in
            let d : start + i - start ≡ i = omega arith in
            let w : t.flash (start + i - 0x0800_0000) ≡ (
                if leb start (start + i) && ltb (start + i) (start + length image)
                then get_or image (start + i - start) 0
                else s.flash (start + i - 0x0800_0000)) =
              rw e at v in
            let x = rw d at w in ground arith)) in
      let whole : flash_write access c address image s ≡ (ok tt, t) =
        ap (λ (m : Action Sim ⊤). m s) (flash_write_lem c address image algo some_bytes accepted)
        ∙ r.1 in
      elim (flash_verify-Decides read_sim (λ u. u ≡ t) (held t.flash) 0x0800_0000
        (0x0800_0000 + t.flash_size) c address image t reader (omega arith) range_lem.0
        (omega (arith, range_lem.1)) refl) [
          | inl d ↦ (t, whole, d.1 ∙ ap (λ (u : Sim). (ok tt, u)) d.3, r.2, r.3, t_size, r.5, r.6)
          | inr d ↦ absurd (d.2 same)
        ]

  -- On a part whose flash is at 0x08000000 and has pages of 64 bytes, an image that is not empty,
  -- shorter than 2^63 bytes, and that the range check accepts at an address of 32 bits is written and then verified: the calls of `wl_flash_write` and
  -- `wl_flash_verify`, at the flash's own address or at the alias, both end with `ok` from any idle
  -- controller and any contents of the flash.
  pub flash_write-flash_verify :
      (s' : Sim) × ((flash_write access c address image >> flash_verify read_sim c address image) s
        ≡ (ok tt, s'))
      × (s'.program_errors ≡ 0)
  flash_write-flash_verify =
      let w = flash_write-image in
      (w.0, ap (go_on (λ _. flash_verify read_sim c address image)) w.1 ∙ w.2, w.4)
