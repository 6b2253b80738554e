-- ===== src/Common/Bits.antt =====
-- `&` and `|` as arithmetic: masks on one byte by tables, and fields joined at any width.
use Prim.Native.Nat.{
  ℕ, zero, suc, ◌+◌, ◌*◌, ◌/◌, ◌%◌, ◌^◌, ◌≤◌, ◌<◌, min, max, bit_and, bit_or, digits,
  bit_and-bitwise, bit_or-bitwise,
}
use mathlib.Core.Path.{◌≡◌, refl, ap}
use mathlib.Core.Bool.{Bool, true, false}
use mathlib.Core.Logic.{ite}
use native.Mathlib.Decide.{ℕ_discrete}
use native.Mathlib.Nat.{pow-suc, le_refl}
use native.Mathlib.Omega.{arith}

-- Two functions that agree on every number below `n`, by evaluation.
module _ (f g : ℕ → ℕ) where
  unfoldable pub agree_below : ℕ → Bool
  unfolding ℕ_discrete
  agree_below zero = true
  agree_below (suc n) = ite (ℕ_discrete (f n) (g n)) (agree_below n) false

  pub agree_below_sound : (n : ℕ) → agree_below n ≡ true → (i : ℕ) → i < n → f i ≡ g i
  unfolding agree_below
  agree_below_sound zero e i h = absurd (omega arith)
  agree_below_sound (suc n) e i h = ground (arith, agree_below_sound n (ground arith) i)

-- The digit recursions behind the native operations do not depend on the count of digits.
module _ (z : ℕ → ℕ) (f : ℕ → ℕ → ℕ) where
  digits_count : (n m a b : ℕ) → a ≤ n → a ≤ m → digits z f n a b ≡ digits z f m a b
  digits_count zero zero zero b p q = refl
  digits_count zero zero (suc a) b p q = refl
  digits_count zero (suc m) zero b p q = refl
  digits_count zero (suc m) (suc a) b p q = absurd (omega arith)
  digits_count (suc n) zero zero b p q = refl
  digits_count (suc n) zero (suc a) b p q = absurd (omega arith)
  digits_count (suc n) (suc m) zero b p q = refl
  digits_count (suc n) (suc m) (suc a) b p q =
      omega (arith, digits_count n m (suc a / 2) (b / 2) (omega arith) (omega arith))

-- One step from the lowest digit.
bit_or_halves : (a b : ℕ) → bit_or a b ≡ bit_or (a / 2) (b / 2) * 2 + max (a % 2) (b % 2)
bit_or_halves zero b = omega (arith, bit_or-bitwise 0 b, bit_or-bitwise 0 (b / 2))
bit_or_halves (suc a) b = omega (
  arith,
  bit_or-bitwise (suc a) b,
  bit_or-bitwise (suc a / 2) (b / 2),
  digits_count (λ t. t) max a (suc a / 2) (suc a / 2) (b / 2) (omega arith) (omega arith),
)

bit_and_halves : (a b : ℕ) → bit_and a b ≡ bit_and (a / 2) (b / 2) * 2 + min (a % 2) (b % 2)
bit_and_halves zero b = omega (arith, bit_and-bitwise 0 b, bit_and-bitwise 0 (b / 2))
bit_and_halves (suc a) b = omega (
  arith,
  bit_and-bitwise (suc a) b,
  bit_and-bitwise (suc a / 2) (b / 2),
  digits_count (λ t. 0) min a (suc a / 2) (suc a / 2) (b / 2) (omega arith) (omega arith),
)

bit_or-zero_within : (n a : ℕ) → a ≤ n → bit_or a 0 ≡ a
bit_or-zero_within n zero h = refl
bit_or-zero_within zero (suc a) h = absurd (omega arith)
bit_or-zero_within (suc n) (suc a) h =
    omega (arith, bit_or_halves (suc a) 0, bit_or-zero_within n (suc a / 2) (omega arith))

bit_and-zero_within : (n a : ℕ) → a ≤ n → bit_and a 0 ≡ 0
bit_and-zero_within n zero h = refl
bit_and-zero_within zero (suc a) h = absurd (omega arith)
bit_and-zero_within (suc n) (suc a) h =
    omega (arith, bit_and_halves (suc a) 0, bit_and-zero_within n (suc a / 2) (omega arith))

double_shift : (a k : ℕ) → a * 2 ^ suc k ≡ 2 * (a * 2 ^ k)
double_shift a k = omega (arith, ap (λ (t : ℕ). a * t) (pow-suc 2 k))

-- `a << k | b` is a sum where `b` has at most `k` bits.
pub bit_or_shifted : (k a b : ℕ) → b < 2 ^ k → bit_or (a * 2 ^ k) b ≡ a * 2 ^ k + b
bit_or_shifted zero a b h =
    let e : b ≡ 0 = omega arith in
    let one : a * 2 ^ 0 ≡ a = omega arith in
    rw (e, one, bit_or-zero_within a a (omega arith)) (omega arith)
bit_or_shifted (suc k) a b h = omega (
  arith,
  pow-suc 2 k,
  bit_or_halves (a * 2 ^ suc k) b,
  double_shift a k,
  ap (λ (t : ℕ). bit_or t (b / 2)) half,
  bit_or_shifted k a (b / 2) (omega (arith, pow-suc 2 k)),
)
  where
    half : a * 2 ^ suc k / 2 ≡ a * 2 ^ k
    half = omega (arith, double_shift a k)

-- A mask with its lowest bit set keeps the lowest bit.
bit_and_odd : (a m b : ℕ) → m ≡ 2 * b + 1 → bit_and a m ≡ bit_and (a / 2) b * 2 + a % 2
bit_and_odd a m b h =
    let half : m / 2 ≡ b = omega arith in
    omega (arith, bit_and_halves a m, ap (λ (t : ℕ). bit_and (a / 2) t) half)

bit_and_nibble : (a : ℕ) → bit_and a 0x0f ≡ a % 16
bit_and_nibble a = omega (
  arith,
  bit_and_odd a 0x0f 7 refl,
  bit_and_odd (a / 2) 7 3 refl,
  bit_and_odd (a / 2 / 2) 3 1 refl,
  bit_and_odd (a / 2 / 2 / 2) 1 0 refl,
  bit_and-zero_within _ (a / 2 / 2 / 2 / 2) (le_refl _),
)

-- `a & 0xff` is the lowest byte.
pub bit_and_byte : (a : ℕ) → bit_and a 0xff ≡ a % 256
bit_and_byte a = omega (
  arith,
  bit_and_odd a 0xff 0x7f refl,
  bit_and_odd (a / 2) 0x7f 0x3f refl,
  bit_and_odd (a / 2 / 2) 0x3f 0x1f refl,
  bit_and_odd (a / 2 / 2 / 2) 0x1f 0x0f refl,
  bit_and_nibble (a / 2 / 2 / 2 / 2),
)
