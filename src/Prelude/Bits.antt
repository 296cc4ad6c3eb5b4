-- ===== src/Prelude/Bits.antt =====
-- Bit masks and bit fields as arithmetic, at every width.
pub mod Sign
use Prim.Native.Nat.{
  ℕ, zero, suc, ◌+◌, ◌-◌, ◌*◌, ◌/◌, ◌%◌, ◌^◌, ◌≤◌, ◌<◌, min, max, bit_and, bit_or, digits, bitwise,
  bit_and-bitwise, bit_or-bitwise,
}
use native.Mathlib.Nat.{
  pow-suc, one-le-pow, pow-succ', div-div-eq-div-mul, mod-eq_of_lt, div-add-mod', div-one, mod-one,
  mul-div_cancel, mul-mod_left, add-mul,
}
use mathlib.Core.Path.{◌≡◌, refl, ap, ap₂}
use native.Mathlib.Omega.{arith}

-- More fuel than the number has digits changes nothing.
module _ (z : ℕ → ℕ) (op : ℕ → ℕ → ℕ) where
  digits_enough : (m n a b : ℕ) → a ≤ m → a ≤ n → digits z op m a b ≡ digits z op n a b
  digits_enough zero zero a b h k = refl
  digits_enough zero (suc n) zero b h k = refl
  digits_enough zero (suc n) (suc a) b h k = absurd (omega arith)
  digits_enough (suc m) zero zero b h k = refl
  digits_enough (suc m) zero (suc a) b h k = absurd (omega arith)
  digits_enough (suc m) (suc n) zero b h k = refl
  digits_enough (suc m) (suc n) (suc a) b h k =
      rw (digits_enough m n (suc a / 2) (b / 2) (omega arith) (omega arith))

  -- The lowest digit, and the number without it.
  pub lowest_digit :
      (a b : ℕ)
      → bitwise z op (suc a) b ≡ 2 * bitwise z op (suc a / 2) (b / 2) + op (suc a % 2) (b % 2)
  lowest_digit a b =
      omega (arith, digits_enough a (suc a / 2) (suc a / 2) (b / 2) (omega arith) (omega arith))

pub bit_or_halve : (a b : ℕ) → bit_or a b ≡ 2 * bit_or (a / 2) (b / 2) + max (a % 2) (b % 2)
bit_or_halve zero b = simp bit_or-bitwise (omega arith)
bit_or_halve (suc a) b = simp bit_or-bitwise (lowest_digit (λ y. y) max a b)

pub bit_and_halve : (a b : ℕ) → bit_and a b ≡ 2 * bit_and (a / 2) (b / 2) + min (a % 2) (b % 2)
bit_and_halve zero b = simp bit_and-bitwise (omega arith)
bit_and_halve (suc a) b = simp bit_and-bitwise (lowest_digit (λ y. 0) min a b)

bit_or-zero_below : (n a : ℕ) → a ≤ n → bit_or a 0 ≡ a
bit_or-zero_below n zero h = refl
bit_or-zero_below zero (suc a) h = absurd (omega arith)
bit_or-zero_below (suc n) (suc a) h =
    omega (arith, bit_or_halve (suc a) 0, bit_or-zero_below n (suc a / 2) (omega arith))

pub bit_or-zero : (a : ℕ) → bit_or a 0 ≡ a
bit_or-zero a = bit_or-zero_below a a (omega arith)

bit_and-zero_below : (n a : ℕ) → a ≤ n → bit_and a 0 ≡ 0
bit_and-zero_below n zero h = refl
bit_and-zero_below zero (suc a) h = absurd (omega arith)
bit_and-zero_below (suc n) (suc a) h =
    omega (arith, bit_and_halve (suc a) 0, bit_and-zero_below n (suc a / 2) (omega arith))

pub bit_and-zero : (a : ℕ) → bit_and a 0 ≡ 0
bit_and-zero a = bit_and-zero_below a a (omega arith)

pub double_pow : (q k : ℕ) → q * 2 ^ suc k ≡ 2 * (q * 2 ^ k)
double_pow q k = omega (arith, ap (λ (t : ℕ). q * t) (pow-suc 2 k))

-- `hi << k | lo` is a sum where `lo` fits `k` bits.
pub bit_or_disjoint : (k hi lo : ℕ) → lo < 2 ^ k → bit_or (hi * 2 ^ k) lo ≡ hi * 2 ^ k + lo
bit_or_disjoint zero hi lo fits = ground (arith, bit_or-zero hi)
bit_or_disjoint (suc k) hi lo fits = ground (
  arith,
  bit_or_halve (hi * 2 ^ suc k) lo,
  double_pow hi k,
  pow-suc 2 k,
  bit_or_disjoint k hi (lo / 2) (omega (arith, pow-suc 2 k)),
)

bit_and_low : (k hi lo : ℕ) → lo < 2 ^ k → bit_and (hi * 2 ^ k + lo) (2 ^ k - 1) ≡ lo
bit_and_low zero hi lo fits = ground (arith, bit_and-zero hi)
bit_and_low (suc k) hi lo fits = ground (
  arith,
  bit_and_halve (hi * 2 ^ suc k + lo) (2 ^ suc k - 1),
  double_pow hi k,
  pow-suc 2 k,
  bit_and_low k hi (lo / 2) (omega (arith, pow-suc 2 k)),
)

-- `x & (2^k - 1)` is the remainder by `2 ^ k`.
pub bit_and_mask : (k x : ℕ) → bit_and x (2 ^ k - 1) ≡ x % 2 ^ k
bit_and_mask k x = ground (arith, one-le-pow k 2, bit_and_low k (x / 2 ^ k) (x % 2 ^ k))

-- One binary digit of a number.
pub bit : ℕ → ℕ → ℕ
bit zero x = x % 2
bit (suc k) x = bit k (x / 2)

pub bit-le-one : (k x : ℕ) → bit k x ≤ 1
unfolding bit
bit-le-one zero x = omega arith
bit-le-one (suc k) x = bit-le-one k (x / 2)

halve_pow : (k x : ℕ) → x / 2 ^ suc k ≡ x / 2 / 2 ^ k
halve_pow k x = rw (pow-succ' 2 k, ← div-div-eq-div-mul x 2 (2 ^ k))

pub bit_div : (k x : ℕ) → bit k x ≡ x / 2 ^ k % 2
unfolding bit
bit_div zero x = omega arith
bit_div (suc k) x = rw (halve_pow k x) (bit_div k (x / 2))

-- `|` and `&` work digit by digit.
pub bit-bit_or : (k a b : ℕ) → bit k (bit_or a b) ≡ max (bit k a) (bit k b)
unfolding bit
bit-bit_or zero a b = omega (arith, bit_or_halve a b)
bit-bit_or (suc k) a b =
    let e : bit_or a b / 2 ≡ bit_or (a / 2) (b / 2) = omega (arith, bit_or_halve a b) in
    rw e (bit-bit_or k (a / 2) (b / 2))

pub bit-bit_and : (k a b : ℕ) → bit k (bit_and a b) ≡ min (bit k a) (bit k b)
unfolding bit
bit-bit_and zero a b = omega (arith, bit_and_halve a b)
bit-bit_and (suc k) a b =
    let e : bit_and a b / 2 ≡ bit_and (a / 2) (b / 2) = omega (arith, bit_and_halve a b) in
    rw e (bit-bit_and k (a / 2) (b / 2))

-- `x & (1 << k)` is the bit's weight, if the bit is set.
pub bit_and_pow : (k x : ℕ) → bit_and x (2 ^ k) ≡ bit k x * 2 ^ k
unfolding bit
bit_and_pow zero x = omega (arith, bit_and_halve x 1, bit_and-zero (x / 2))
bit_and_pow (suc k) x = omega (
  arith,
  bit_and_halve x (2 ^ suc k),
  pow-suc 2 k,
  double_pow (bit k (x / 2)) k,
  bit_and_pow k (x / 2),
  ap (λ (t : ℕ). bit_and (x / 2) t) (half_double k),
)
  where
    half_double : (j : ℕ) → 2 ^ suc j / 2 ≡ 2 ^ j
    half_double j = omega (arith, pow-suc 2 j)

-- A mask of all but the `k` low bits rounds down to a multiple of `2 ^ k`.
pub bit_and_high : (k n x : ℕ) → k ≤ n → x < 2 ^ n → bit_and x (2 ^ n - 2 ^ k) ≡ x / 2 ^ k * 2 ^ k
bit_and_high zero n x h lt = ground (arith, bit_and_mask n x, mod-eq_of_lt lt)
bit_and_high (suc k) zero x h lt = absurd (omega arith)
bit_and_high (suc k) (suc n) x h lt = omega (
  arith,
  bit_and_halve x (2 ^ suc n - 2 ^ suc k),
  pow-suc 2 n,
  pow-suc 2 k,
  halve_pow k x,
  double_pow (x / 2 / 2 ^ k) k,
  ap (λ (t : ℕ). t * 2 ^ suc k) (halve_pow k x),
  ap (λ (t : ℕ). bit_and (x / 2) t) half_mask,
  bit_and_high k n (x / 2) (omega arith) (omega (arith, pow-suc 2 n)),
)
  where
    half_mask : (2 ^ suc n - 2 ^ suc k) / 2 ≡ 2 ^ n - 2 ^ k
    half_mask = omega (arith, pow-suc 2 n, pow-suc 2 k)

-- The same for any multiple of `2 ^ k`.
pub bit_or_multiple : (k x lo : ℕ) → x % 2 ^ k ≡ 0 → lo < 2 ^ k → bit_or x lo ≡ x + lo
bit_or_multiple k x lo low_zero fits =
    let e : x / 2 ^ k * 2 ^ k ≡ x = omega (arith, div-add-mod' x (2 ^ k)) in
    rw e at (bit_or_disjoint k (x / 2 ^ k) lo fits)

halve_mod : (k a : ℕ) → (a % 2 ^ suc k / 2 ≡ a / 2 % 2 ^ k) × (a % 2 ^ suc k % 2 ≡ a % 2)
halve_mod k a =
    let q = ap (λ (t : ℕ). t * 2 ^ suc k) (halve_pow k a) in
    let d = double_pow (a / 2 / 2 ^ k) k in
    let e = div-add-mod' a (2 ^ suc k) in
    let f = div-add-mod' (a / 2) (2 ^ k) in (omega arith, omega arith)

-- The two parts of the numbers above and below a place are joined apart.
pub bit_or_split :
    (k a b : ℕ)
    → bit_or a b ≡ bit_or (a / 2 ^ k) (b / 2 ^ k) * 2 ^ k + bit_or (a % 2 ^ k) (b % 2 ^ k)
bit_or_split zero a b = rw (div-one a, div-one b, mod-one a, mod-one b) (omega arith)
bit_or_split (suc k) a b = omega (
  arith,
  bit_or_halve a b,
  bit_or_halve (a % 2 ^ suc k) (b % 2 ^ suc k),
  bit_or_split k (a / 2) (b / 2),
  halve_mod k a,
  halve_mod k b,
  ap₂ bit_or (halve_pow k a) (halve_pow k b),
  ap₂ bit_or (halve_mod k a).0 (halve_mod k b).0,
  ap (λ (t : ℕ). t * 2 ^ suc k) (ap₂ bit_or (halve_pow k a) (halve_pow k b)),
  double_pow (bit_or (a / 2 / 2 ^ k) (b / 2 / 2 ^ k)) k,
)

bit_or_comm_below : (n a b : ℕ) → a ≤ n → b ≤ n → bit_or a b ≡ bit_or b a
bit_or_comm_below zero zero zero h k = refl
bit_or_comm_below zero (suc a) b h k = absurd (omega arith)
bit_or_comm_below zero zero (suc b) h k = absurd (omega arith)
bit_or_comm_below (suc n) a b h k = omega (
  arith,
  bit_or_halve a b,
  bit_or_halve b a,
  bit_or_comm_below n (a / 2) (b / 2) (omega arith) (omega arith),
)

pub bit_or_comm : (a b : ℕ) → bit_or a b ≡ bit_or b a
bit_or_comm a b = bit_or_comm_below (a + b) a b (omega arith) (omega arith)

bit_and_comm_below : (n a b : ℕ) → a ≤ n → b ≤ n → bit_and a b ≡ bit_and b a
bit_and_comm_below zero zero zero h k = refl
bit_and_comm_below zero (suc a) b h k = absurd (omega arith)
bit_and_comm_below zero zero (suc b) h k = absurd (omega arith)
bit_and_comm_below (suc n) a b h k = omega (
  arith,
  bit_and_halve a b,
  bit_and_halve b a,
  bit_and_comm_below n (a / 2) (b / 2) (omega arith) (omega arith),
)

pub bit_and_comm : (a b : ℕ) → bit_and a b ≡ bit_and b a
bit_and_comm a b = bit_and_comm_below (a + b) a b (omega arith) (omega arith)

-- A field of `n` bits at place `k` is put into a number that has zeros there.
pub bit_or_field :
    (k n x v : ℕ) → x / 2 ^ k % 2 ^ n ≡ 0 → v < 2 ^ n → bit_or x (v * 2 ^ k) ≡ x + v * 2 ^ k
bit_or_field k n x v free fits =
    let pos = one-le-pow k 2 (omega arith) in
    let high : v * 2 ^ k / 2 ^ k ≡ v = mul-div_cancel v pos in
    let low : v * 2 ^ k % 2 ^ k ≡ 0 = mul-mod_left v (2 ^ k) in
    omega (
      arith,
      bit_or_split k x (v * 2 ^ k),
      ap (λ (t : ℕ). bit_or (x / 2 ^ k) t * 2 ^ k) high,
      ap (λ (t : ℕ). bit_or (x % 2 ^ k) t) low,
      bit_or-zero (x % 2 ^ k),
      ap (λ (t : ℕ). t * 2 ^ k) (bit_or_multiple n (x / 2 ^ k) v free fits),
      add-mul (x / 2 ^ k) v (2 ^ k),
      div-add-mod' x (2 ^ k),
    )

bit_and_le_below : (n a b : ℕ) → a ≤ n → bit_and a b ≤ b
bit_and_le_below n zero b h = omega (arith, bit_and_comm zero b, bit_and-zero b)
bit_and_le_below zero (suc a) b h = absurd (omega arith)
bit_and_le_below (suc n) (suc a) b h =
    omega (arith, bit_and_halve (suc a) b, bit_and_le_below n (suc a / 2) (b / 2) (omega arith))

-- A mask bounds what it leaves.
pub bit_and_le : (a b : ℕ) → bit_and a b ≤ b
bit_and_le a b = bit_and_le_below a a b (omega arith)
