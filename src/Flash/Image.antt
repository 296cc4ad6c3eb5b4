-- ===== src/Flash/Image.antt =====
-- Writing and verifying an image (src/flash.c).
pub mod Verify
pub mod Program
pub mod Alike
use libopenwch_tools.Prelude.{
  ℕ, zero, suc, ◌+◌, ◌-◌, ◌^◌, ◌%◌, Bool, true, false, ◌&&◌, not, List, [], ◌∷◌, ◌==◌, ltb,
  if◌then◌else◌, u32, length, take, drop,
}
use libopenwch_tools.Status.{Action, usage, not_implemented, verify, io, ⊤, pure, fail, ◌>>=◌, ◌>>◌}
use libopenwch_tools.Target.{Chip, FlashAlgo, unsupported, ch32v0}
use libopenwch_tools.Flash.Access.{Access}
use libopenwch_tools.Flash.Range.{normalise, range_ok}
use libopenwch_tools.Flash.Ch32v0.{ch32v0_write}

-- `wl_linke_can_flash`
unfoldable pub can_flash : Chip → Bool
can_flash c = elim c.algo [ unsupported ↦ false | ch32v0 ↦ true ]

-- The inner loop of `wl_flash_verify` on one chunk.
unfoldable pub same_bytes : List ℕ → List ℕ → Bool
same_bytes [] expected = true
same_bytes (b ∷ buffer) [] = false
same_bytes (b ∷ buffer) (e ∷ expected) = (b == e) && same_bytes buffer expected

abbrev pub chunk_max : ℕ
chunk_max = 256

module _ {S : Type 0} (A : Access S) where
  -- `wl_flash_write`
  unfoldable pub flash_write : Chip → ℕ → List ℕ → Action S ⊤
  flash_write c address image = if length image == 0 then fail usage else elim c.algo [
    | unsupported ↦ fail not_implemented
    | ch32v0 ↦
        if not (range_ok c address (length image))
        then fail usage
        else ch32v0_write A c (normalise c address) image
  ]

module _ {S : Type 0} (read_memory : ℕ → ℕ → Action S (List ℕ)) where
  -- The loop of `wl_flash_verify` at the bytes that are left; `read_memory` is
  -- `wl_linke_read_memory` for the part. `fail io` says that the bound on the rounds ran out.
  unfoldable pub verify_from : ℕ → ℕ → List ℕ → Action S ⊤
  verify_from zero address expected = fail io
  verify_from (suc rounds) address [] = pure tt
  verify_from (suc rounds) address (e ∷ expected) = do
    let chunk = if ltb chunk_max (length (e ∷ expected)) then chunk_max else length (e ∷ expected)
    buffer ← read_memory address chunk
    elim (same_bytes buffer (e ∷ expected)) [
      | true ↦ verify_from rounds (u32 (address + chunk)) (drop chunk (e ∷ expected))
      | false ↦ fail verify
    ]

  -- `wl_flash_verify`; a round for each byte, and one, are enough.
  unfoldable pub flash_verify : Chip → ℕ → List ℕ → Action S ⊤
  unfolding verify_from same_bytes
  flash_verify c address image = verify_from (length image + 1) (normalise c address) image
