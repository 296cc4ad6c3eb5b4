-- ===== src/Flash/Image/Verify.antt =====
-- Verifying an image against a memory (src/flash.c).
use libopenwch_tools.Prelude.{
  ℕ, zero, suc, ◌+◌, ◌-◌, ◌≤◌, ◌<◌, ◌^◌, ◌≡◌, ◌≢◌, refl, sym, ap, ◌∙◌, ◌⊎◌, inl, inr, Bool, true,
  false, List, [], ◌∷◌, ◌++◌, arith, ◌==◌, ltb, if◌then◌else◌, u32, length, drop, length-drop,
  eq→==, Bool-cases,
}
use libopenwch_tools.Status.{Action, verify, ok, err, fail, go_on, ⊤, ◌>>=◌}
use libopenwch_tools.Target.{Chip}
use libopenwch_tools.Dm.Memory.Block.{bytes_from}
use libopenwch_tools.Flash.Range.{normalise}
use libopenwch_tools.Flash.Image.{same_bytes, verify_from, flash_verify, chunk_max}

-- A reader of the memory `mem` between `lo` and `hi`, in the states that satisfy `Inv`.
abbrev pub IsReader :
    {S : Type 0} → (ℕ → ℕ → Action S (List ℕ)) → (S → Type 0) → (ℕ → ℕ) → ℕ → ℕ → Type 0
IsReader {S} read_memory Inv mem lo hi =
    (a n : ℕ) (s : S)
    → Inv s
    → lo ≤ a
    → a + n ≤ hi
    → (s' : S) × (read_memory a n s ≡ (ok (bytes_from mem a n), s')) × Inv s'

module _ (mem : ℕ → ℕ) where
  bytes_from-append :
      (n m a : ℕ) → bytes_from mem a n ++ bytes_from mem (a + n) m ≡ bytes_from mem a (n + m)
  bytes_from-append zero m a =
      let e : a + 0 ≡ a = omega arith in let f : 0 + m ≡ m = omega arith in rw (e, f) refl
  bytes_from-append (suc n) m a =
      let e : a + suc n ≡ a + 1 + n = omega arith in
      let f : suc n + m ≡ suc (n + m) = omega arith in
      rw (e, f) (ap (λ bytes. mem a ∷ bytes) (bytes_from-append n m (a + 1)))

  drop-bytes_from : (n a : ℕ) (rest : List ℕ) → drop n (bytes_from mem a n ++ rest) ≡ rest
  drop-bytes_from zero a rest = refl
  drop-bytes_from (suc n) a rest = drop-bytes_from n (a + 1) rest

  same_bytes-true :
      (n a : ℕ) (image : List ℕ)
      → same_bytes (bytes_from mem a n) image ≡ true
      → bytes_from mem a n ++ drop n image ≡ image
  unfolding same_bytes
  same_bytes-true zero a image h = refl
  same_bytes-true (suc n) a [] h = cc
  same_bytes-true (suc n) a (e ∷ image) h = ground (arith, same_bytes-true n (a + 1) image)

  same_bytes-false :
      (n a : ℕ) (image rest : List ℕ)
      → same_bytes (bytes_from mem a n) image ≡ false
      → image ≢ bytes_from mem a n ++ rest
  unfolding same_bytes
  same_bytes-false zero a image rest h = cc
  same_bytes-false (suc n) a [] rest h = λ q. cc
  same_bytes-false (suc n) a (e ∷ image) rest h = λ q.
      let e1 : e ≡ mem a = cc in
      let e2 : image ≡ bytes_from mem (a + 1) n ++ rest = cc in
      let e3 : (mem a == e) ≡ true = eq→== (mem a) e (sym e1) in
      let h2 : same_bytes (bytes_from mem (a + 1) n) image ≡ false = rw e3 at h in
      same_bytes-false n (a + 1) image rest h2 e2

-- What verification comes to.
abbrev Decides : {S : Type 0} → Action S ⊤ → (S → Type 0) → List ℕ → List ℕ → S → Type 0
Decides {S} m Inv image held s =
    ((s' : S) × (m s ≡ (ok tt, s')) × (image ≡ held) × Inv s')
    ⊎ ((s' : S) × (m s ≡ (err verify, s')) × (image ≢ held) × Inv s')

module _ {S : Type 0} (read_memory : ℕ → ℕ → Action S (List ℕ)) (Inv : S → Type 0) (mem : ℕ → ℕ)
    (lo hi : ℕ) (reads : IsReader read_memory Inv mem lo hi) (below : hi < 2 ^ 32) where
  -- One round, for a chunk of any size.
  abbrev answer : ℕ → ℕ → List ℕ → ℕ → Bool → Action S ⊤
  answer rounds a image chunk same = elim same [
    | true ↦ verify_from read_memory rounds (u32 (a + chunk)) (drop chunk image)
    | false ↦ fail verify
  ]

  abbrev round : ℕ → ℕ → List ℕ → ℕ → Action S ⊤
  round rounds a image chunk = do
    buffer ← read_memory a chunk
    answer rounds a image chunk (same_bytes buffer image)

  round-Decides :
      (rounds a : ℕ) (image : List ℕ) (chunk : ℕ) (s : S)
      → Inv s
      → lo ≤ a
      → a + length image ≤ hi
      → chunk ≤ length image
      → ((s' : S)
          → Inv s'
          → Decides
              (verify_from read_memory rounds (a + chunk) (drop chunk image))
              Inv
              (drop chunk image)
              (bytes_from mem (a + chunk) (length image - chunk))
              s')
      → Decides (round rounds a image chunk) Inv image (bytes_from mem a (length image)) s
  round-Decides rounds a image chunk s inv l h fits next =
      let q = reads a chunk s inv l (omega arith) in
      let buffer : List ℕ = bytes_from mem a chunk in
      let after : List ℕ = bytes_from mem (a + chunk) (length image - chunk) in
      let f : List ℕ → Action S ⊤ = λ b. answer rounds a image chunk (same_bytes b image) in
      let n : chunk + (length image - chunk) ≡ length image = omega arith in
      let parts : buffer ++ after ≡ bytes_from mem a (length image) =
        bytes_from-append mem chunk (length image - chunk) a ∙ ap (bytes_from mem a) n in
      let e : u32 (a + chunk) ≡ a + chunk = omega arith in
      elim (Bool-cases (same_bytes buffer image)) [
        | inl same ↦
            let start : round rounds a image chunk s
                ≡ verify_from read_memory rounds (a + chunk) (drop chunk image) q.0 =
              ap (go_on f) q.1
              ∙ ap (λ b. answer rounds a image chunk b q.0) same
              ∙ ap (λ b. verify_from read_memory rounds b (drop chunk image) q.0) e in
            let whole = same_bytes-true mem chunk a image same in
            elim (next q.0 q.2) [
              | inl d ↦
                  inl (d.0, start ∙ d.1, sym whole ∙ ap (λ rest. buffer ++ rest) d.2 ∙ parts, d.3)
              | inr d ↦ inr (
                d.0,
                start ∙ d.1,
                λ held. d.2 (
                    sym (drop-bytes_from mem chunk a (drop chunk image))
                    ∙ ap (drop chunk) (whole ∙ held ∙ sym parts)
                    ∙ drop-bytes_from mem chunk a after),
                d.3,
              )
            ]
        | inr differ ↦ inr (
          q.0,
          ap (go_on f) q.1 ∙ ap (λ b. answer rounds a image chunk b q.0) differ,
          λ held. same_bytes-false mem chunk a image after differ (held ∙ sym parts),
          q.2,
        )
      ]

  verify_from-Decides :
      (rounds a : ℕ) (image : List ℕ) (s : S)
      → Inv s
      → lo ≤ a
      → a + length image ≤ hi
      → length image < rounds
      → Decides
          (verify_from read_memory rounds a image)
          Inv
          image
          (bytes_from mem a (length image))
          s
  unfolding verify_from
  verify_from-Decides zero a image s inv l h r = absurd (omega arith)
  verify_from-Decides (suc rounds) a [] s inv l h r = inl (s, refl, refl, inv)
  verify_from-Decides (suc rounds) a (x ∷ xs) s inv l h r =
      let image : List ℕ = x ∷ xs in
      let chunk : ℕ = if ltb chunk_max (length image) then chunk_max else length image in
      let fits : (1 ≤ chunk) × (chunk ≤ length image) = ground arith in
      round-Decides rounds a image chunk s inv l h fits.1 (λ s' inv'.
        rw (length-drop chunk image) at (
          verify_from-Decides rounds (a + chunk) (drop chunk image) s' inv' (omega arith)
            (omega (arith, length-drop chunk image)) (omega (arith, length-drop chunk image))))

-- Where the memory can be read, `wl_flash_verify` ends, and it says `ok` where the image is what the
-- memory holds from the normalised address on, and `err verify` where it is not.
pub flash_verify-Decides :
    {S : Type 0} (read_memory : ℕ → ℕ → Action S (List ℕ)) (Inv : S → Type 0) (mem : ℕ → ℕ)
    (lo hi : ℕ) (c : Chip) (address : ℕ) (image : List ℕ) (s : S)
    → IsReader read_memory Inv mem lo hi
    → hi < 2 ^ 32
    → lo ≤ normalise c address
    → normalise c address + length image ≤ hi
    → Inv s
    → ((s' : S) × (flash_verify read_memory c address image s ≡ (ok tt, s'))
        × (image ≡ bytes_from mem (normalise c address) (length image))
        × Inv s')
      ⊎ ((s' : S) × (flash_verify read_memory c address image s ≡ (err verify, s'))
          × (image ≢ bytes_from mem (normalise c address) (length image))
          × Inv s')
unfolding flash_verify
flash_verify-Decides read_memory Inv mem lo hi c address image s reads below l h inv =
    verify_from-Decides read_memory Inv mem lo hi reads below (length image + 1)
      (normalise c address) image s inv l h (omega arith)
