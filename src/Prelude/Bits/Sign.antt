-- ===== src/Prelude/Bits/Sign.antt =====
-- Exclusive or with one bit, and with it the sign extension of `(x ^ m) - m`.
use Prim.Native.Nat.{ℕ, zero, suc, ◌+◌, ◌*◌, ◌/◌, ◌%◌, ◌^◌, ◌<◌, bit_xor, differ, bit_xor-bitwise}
use native.Mathlib.Nat.{pow-suc}
use mathlib.Core.Path.{◌≡◌, refl, ap}
use native.Mathlib.Omega.{arith}
use libopenwch_tools.Prelude.Bits.{lowest_digit}

differ-zero : (x : ℕ) → differ x 0 ≡ x
differ-zero zero = refl
differ-zero (suc x) = refl

bit_xor_halve : (a b : ℕ) → bit_xor a b ≡ 2 * bit_xor (a / 2) (b / 2) + differ (a % 2) (b % 2)
bit_xor_halve zero b = simp bit_xor-bitwise (omega arith)
bit_xor_halve (suc a) b = simp bit_xor-bitwise (lowest_digit (λ y. y) differ a b)

-- One digit of an exclusive or with an even number.
bit_xor-even : (v j : ℕ) → bit_xor v (j * 2) ≡ 2 * bit_xor (v / 2) j + v % 2
bit_xor-even v j =
    let e : j * 2 / 2 ≡ j = omega arith in
    let f : j * 2 % 2 ≡ 0 = omega arith in
    let h = bit_xor_halve v (j * 2) in
    let g = rw (e, f) at h in omega (arith, g, differ-zero (v % 2))

-- The bit is set where it was clear.
pub bit_xor-clear : (k v : ℕ) → v < 2 ^ k → bit_xor v (2 ^ k) ≡ v + 2 ^ k
bit_xor-clear zero zero fits = refl
bit_xor-clear zero (suc v) fits = absurd (omega arith)
bit_xor-clear (suc k) v fits = omega (
  arith,
  pow-suc 2 k,
  bit_xor-even v (2 ^ k),
  ap (λ (t : ℕ). bit_xor v t) (pow-suc 2 k),
  bit_xor-clear k (v / 2) (omega (arith, pow-suc 2 k)),
)

-- The bit is cleared where it was set.
pub bit_xor-set : (k v : ℕ) → v < 2 ^ k → bit_xor (v + 2 ^ k) (2 ^ k) ≡ v
bit_xor-set zero zero fits = refl
bit_xor-set zero (suc v) fits = absurd (omega arith)
bit_xor-set (suc k) v fits = omega (
  arith,
  pow-suc 2 k,
  bit_xor-even (v + 2 ^ suc k) (2 ^ k),
  ap (λ (t : ℕ). bit_xor (v + 2 ^ suc k) t) (pow-suc 2 k),
  ap (λ (t : ℕ). bit_xor t (2 ^ k)) half,
  bit_xor-set k (v / 2) (omega (arith, pow-suc 2 k)),
)
  where
    half : (v + 2 ^ suc k) / 2 ≡ v / 2 + 2 ^ k
    half = omega (arith, pow-suc 2 k)
