-- ===== src/Flash/Image/Alike.antt =====
-- Writing and verifying (src/flash.c) on two targets that answer alike.
use libopenwch_tools.Prelude.{
  ℕ, zero, suc, ◌+◌, ◌≤◌, true, false, not, List, [], ◌∷◌, ◌==◌, ltb, if◌then◌else◌, u32, length,
  drop, length-drop, arith,
}
use libopenwch_tools.Status.{Action, usage, not_implemented, verify, io, ⊤, fail}
use libopenwch_tools.Status.Simulates.{
  Simulates, Any, pure-Simulates, fail-Simulates, bind-Simulates, if-Simulates,
}
use libopenwch_tools.Dm.Memory.Alike.{Bytes}
use libopenwch_tools.Target.{Chip, FlashAlgo, unsupported, ch32v0}
use libopenwch_tools.Flash.Access.{Access}
use libopenwch_tools.Flash.Range.{normalise, range_ok}
use libopenwch_tools.Flash.Ch32v0.{ch32v0_write}
use libopenwch_tools.Flash.Ch32v0.Alike.{IsAlike, ch32v0_write-Alike}
use libopenwch_tools.Flash.Image.{same_bytes, flash_write, verify_from, flash_verify, chunk_max}

module _ {S T : Type 0} {R : S → T → Type 0} {A : Access S} {B : Access T} (alike : IsAlike R A B)
    (c : Chip) (address : ℕ) (image : List ℕ) (all : Bytes image)
    (low : u32 (normalise c address + u32 (length image)) ≤ 0x0fff_0000) where
  abbrev dispatched : {S : Type 0} → Access S → FlashAlgo → Action S ⊤
  dispatched A algo = elim algo [
    | unsupported ↦ fail not_implemented
    | ch32v0 ↦
        if not (range_ok c address (length image))
        then fail usage
        else ch32v0_write A c (normalise c address) image
  ]

  dispatched-Alike :
      (algo : FlashAlgo) → Simulates R (Any R) (dispatched A algo) (dispatched B algo)
  dispatched-Alike unsupported = fail-Simulates R not_implemented
  dispatched-Alike ch32v0 =
      if-Simulates R (not (range_ok c address (length image))) (fail-Simulates R usage)
        (ch32v0_write-Alike alike image all c (normalise c address) low)

  pub flash_write-Alike :
      Simulates R (Any R) (flash_write A c address image) (flash_write B c address image)
  unfolding flash_write
  flash_write-Alike =
      if-Simulates R (length image == 0) (fail-Simulates R usage) (dispatched-Alike c.algo)

module _ {S T : Type 0} {R : S → T → Type 0} (p : ℕ → ℕ → Action S (List ℕ))
    (q : ℕ → ℕ → Action T (List ℕ))
    (blocks : (a n : ℕ) → a + n ≤ 0x1000_0000 → Simulates R (Any R) (p a n) (q a n)) where
  verify_from-Alike :
      (rounds address : ℕ) (expected : List ℕ)
      → address + length expected ≤ 0x1000_0000
      → Simulates R
          (Any R)
          (verify_from p rounds address expected)
          (verify_from q rounds address expected)
  unfolding verify_from
  verify_from-Alike zero address expected h = fail-Simulates R io
  verify_from-Alike (suc rounds) address [] h = pure-Simulates R tt tt
  verify_from-Alike (suc rounds) address (e ∷ expected) h =
      let chunk : ℕ =
        if ltb chunk_max (length (e ∷ expected)) then chunk_max else length (e ∷ expected) in
      let small : chunk ≤ length (e ∷ expected) = ground arith in
      bind-Simulates R (blocks address chunk (omega arith)) (λ buffer k.
        elim (same_bytes buffer (e ∷ expected))
          as (λ b.
            Simulates R {A = ⊤} (Any R)
              (elim b [
                | true ↦ verify_from p rounds (u32 (address + chunk)) (drop chunk (e ∷ expected))
                | false ↦ fail verify
              ])
              (elim b [
                | true ↦ verify_from q rounds (u32 (address + chunk)) (drop chunk (e ∷ expected))
                | false ↦ fail verify
              ])) [
                | true ↦
                    verify_from-Alike rounds (u32 (address + chunk)) (drop chunk (e ∷ expected))
                      (omega (arith, length-drop chunk (e ∷ expected)))
                | false ↦ fail-Simulates R verify
              ])

  pub flash_verify-Alike :
      (c : Chip) (address : ℕ) (image : List ℕ)
      → normalise c address + length image ≤ 0x1000_0000
      → Simulates R (Any R) (flash_verify p c address image) (flash_verify q c address image)
  unfolding flash_verify
  flash_verify-Alike c address image h =
      verify_from-Alike (length image + 1) (normalise c address) image h
