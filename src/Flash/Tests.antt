-- ===== src/Flash/Tests.antt =====
-- Runs of the flash layer.
use libopenwch_tools.Prelude.{
  ◌-◌, ◌&&◌, ltb, leb, if◌then◌else◌, get_or, All, false, ℕ, ◌+◌, ◌^◌, ◌<◌, ◌≤◌, ◌≡◌, ◌≢◌, refl,
  ◌⊎◌, true, List, [], ◌∷◌, get_elem?, some, arith,
}
use libopenwch_tools.Status.{ok, err, verify, ◌>>◌}
use libopenwch_tools.Target.{chips}
use libopenwch_tools.Target.Tests.{v003}
use libopenwch_tools.Dm.Memory.{read_block_by}
use libopenwch_tools.Dm.Memory.Block.{bytes_from, read_block_by-Reads}
use libopenwch_tools.Dm.Tests.{low_byte, read_low, read_low-IsReadable}
use libopenwch_tools.Flash.Range.{normalise, range_ok}
use libopenwch_tools.Flash.Range.Alias.{normalise-low, range_ok-normalise, range_ok-bound}
use libopenwch_tools.Flash.Image.{flash_write, flash_verify}
use libopenwch_tools.Flash.Image.Program.{read_sim, flash_write-flash_verify}
use libopenwch_tools.Flash.Ch32v0.{ch32v0_write}
use libopenwch_tools.Flash.Ch32v0.Whole.{ch32v0_write-image}
use libopenwch_tools.Sim.{Sim, access}
use libopenwch_tools.Flash.Image.Verify.{IsReader, flash_verify-Decides}

range_ok-normalise_example :
    (range_ok v003 0x100 64 ≡ range_ok v003 (0x100 + 0x0800_0000) 64)
    × (normalise v003 0x100 ≡ normalise v003 (0x100 + 0x0800_0000))
range_ok-normalise_example = range_ok-normalise v003 0x100 64 refl (omega arith)

accepted : range_ok v003 0x100 64 ≡ true
unfolding range_ok
accepted = refl

first_entry : get_elem? chips 0 ≡ some v003
unfolding chips
first_entry = refl

range_ok-bound_example :
    (v003.flash_base ≤ normalise v003 0x100)
    × (normalise v003 0x100 + 64 ≤ v003.flash_base + v003.flash_size)
    × (normalise v003 0x100 + 64 < 2 ^ 32)
range_ok-bound_example =
    range_ok-bound v003 0 0x100 64 first_entry (omega arith) (omega arith) accepted

-- The memory of the debug-module tests, read a block at a time.
reader :
    IsReader (λ a n. read_block_by read_low a n) (λ s. Unit {0}) low_byte 0x0800_0000 0x0800_4000
reader a n s inv l h = read_block_by-Reads read_low-IsReadable n a s inv l h

start : normalise v003 0x21 ≡ 0x0800_0021
start = normalise-low v003 0x21 refl (omega arith)

abbrev image : List ℕ
image = 0x21 ∷ 0x22 ∷ 0x23 ∷ []

flash_verify-Decides_example :
    ((s' : ℕ) × (flash_verify (λ a n. read_block_by read_low a n) v003 0x21 image 0 ≡ (ok tt, s'))
      × (image ≡ bytes_from low_byte (normalise v003 0x21) 3)
      × Unit {0})
    ⊎ ((s' : ℕ) × (flash_verify (λ a n. read_block_by read_low a n) v003 0x21 image 0
          ≡ (err verify, s'))
        × (image ≢ bytes_from low_byte (normalise v003 0x21) 3)
        × Unit {0})
flash_verify-Decides_example =
    flash_verify-Decides (λ a n. read_block_by read_low a n) (λ s. Unit {0}) low_byte 0x0800_0000
      0x0800_4000 v003 0x21 image 0 reader (omega arith) (omega (arith, start))
      (omega (arith, start)) tt

-- A target whose flash holds zeros, locked.
abbrev device : Sim
device = record {
  flash = λ x. 0;
  flash_size = 16384;
  key_stage = 0;
  mode_key_stage = 0;
  unlocked = false;
  mode_unlocked = false;
  ctlr = 0;
  addr = 0;
  page_buf = λ i. 0xff;
  busy_reads = 0;
  erases = 0;
  programs = 0;
  program_errors = 0;
}

image-Bytes : All (λ b. b < 256) image
image-Bytes = (omega arith, (omega arith, (omega arith, tt)))

-- The three bytes lie across the border of two pages.
ch32v0_write-image_example :
    (s' : Sim) × (ch32v0_write access v003 0x0800_003e image device ≡ (ok tt, s'))
    × ((x : ℕ)
        → s'.flash x ≡ (
            if leb 0x0800_003e (x + 0x0800_0000) && ltb (x + 0x0800_0000) (0x0800_003e + 3)
            then get_or image (x + 0x0800_0000 - 0x0800_003e) 0
            else 0))
    × (s'.program_errors ≡ 0)
    × (s'.flash_size ≡ 16384)
    × (s'.ctlr ≡ 0)
    × (s'.busy_reads ≡ 0)
ch32v0_write-image_example =
    ch32v0_write-image v003 device 0x0800_003e image refl refl refl refl (λ x. omega arith)
      (omega arith) (omega arith) image-Bytes (omega arith) (omega arith)

accepted_image : range_ok v003 0x3e 3 ≡ true
unfolding range_ok
accepted_image = refl

flash_write-flash_verify_example :
    (s' : Sim) × ((flash_write access v003 0x3e image >> flash_verify read_sim v003 0x3e image)
        device
      ≡ (ok tt, s'))
    × (s'.program_errors ≡ 0)
flash_write-flash_verify_example =
    flash_write-flash_verify v003 device 0x3e image refl refl refl refl refl refl refl
      (λ x. omega arith) (omega arith) (omega arith) image-Bytes (omega arith) (omega arith)
      (omega arith) accepted_image
