-- ===== src/Base/Bitwise.antt =====
-- The `&` of a low mask and the `|` of disjoint fields, as arithmetic, at every width.
use Prim.Native.Nat.{ℕ, zero, suc, ◌+◌, ◌-◌, ◌*◌, ◌/◌, ◌%◌, ◌^◌, ◌≤◌, ◌<◌, min, max}
use Prim.Native.Nat.{
  digits, differ, bit_and, bit_or, bit_xor, bit_and-bitwise, bit_or-bitwise, bit_xor-bitwise,
}
use mathlib.Core.Path.{◌≡◌, refl, ap}
use native.Mathlib.Nat.{pow-suc, one-le-pow}
use native.Mathlib.Omega.{arith}

-- Two amounts of fuel that both reach the first argument give the same digits.
module _ (left_over : ℕ → ℕ) (digit : ℕ → ℕ → ℕ) where
  same_digits :
      (x y fuel spare : ℕ)
      → x ≤ fuel
      → x ≤ spare
      → digits left_over digit fuel x y ≡ digits left_over digit spare x y
  same_digits zero y zero zero le le' = refl
  same_digits zero y zero (suc spare) le le' = refl
  same_digits zero y (suc fuel) zero le le' = refl
  same_digits zero y (suc fuel) (suc spare) le le' = refl
  same_digits (suc x) y zero spare le le' = absurd (omega arith)
  same_digits (suc x) y (suc fuel) zero le le' = absurd (omega arith)
  same_digits (suc x) y (suc fuel) (suc spare) le le' =
      let rest = same_digits (suc x / 2) (y / 2) fuel spare (omega arith) (omega arith) in
      omega (arith, rest)

-- The lowest bit apart from the others.
pub bit_and_step : (x y : ℕ) → bit_and x y ≡ bit_and (x / 2) (y / 2) * 2 + min (x % 2) (y % 2)
bit_and_step zero y = omega (arith, bit_and-bitwise zero y, bit_and-bitwise zero (y / 2))
bit_and_step (suc x) y =
    let halves =
      same_digits (λ v. 0) min (suc x / 2) (y / 2) x (suc x / 2) (omega arith) (omega arith) in
    omega (arith, halves, bit_and-bitwise (suc x) y, bit_and-bitwise (suc x / 2) (y / 2))

pub bit_or_step : (x y : ℕ) → bit_or x y ≡ bit_or (x / 2) (y / 2) * 2 + max (x % 2) (y % 2)
bit_or_step zero y = omega (arith, bit_or-bitwise zero y, bit_or-bitwise zero (y / 2))
bit_or_step (suc x) y =
    let halves =
      same_digits (λ v. v) max (suc x / 2) (y / 2) x (suc x / 2) (omega arith) (omega arith) in
    omega (arith, halves, bit_or-bitwise (suc x) y, bit_or-bitwise (suc x / 2) (y / 2))

pub bit_xor_step : (x y : ℕ) → bit_xor x y ≡ bit_xor (x / 2) (y / 2) * 2 + differ (x % 2) (y % 2)
bit_xor_step zero y = omega (arith, bit_xor-bitwise zero y, bit_xor-bitwise zero (y / 2))
bit_xor_step (suc x) y =
    let halves =
      same_digits (λ v. v) differ (suc x / 2) (y / 2) x (suc x / 2) (omega arith) (omega arith) in
    omega (arith, halves, bit_xor-bitwise (suc x) y, bit_xor-bitwise (suc x / 2) (y / 2))

-- A mask of no bits keeps none, by halving at most `bound` times.
masked_out : (bound x : ℕ) → x ≤ bound → bit_and x 0 ≡ 0
masked_out bound zero le = refl
masked_out zero (suc x) le = absurd (omega arith)
masked_out (suc bound) (suc x) le =
    let half = masked_out bound (suc x / 2) (omega arith) in
    omega (arith, half, bit_and_step (suc x) 0)

bit_and-zero : (x : ℕ) → bit_and x 0 ≡ 0
bit_and-zero x = masked_out x x (omega arith)

bit_or-zero_upto : (n a : ℕ) → a ≤ n → bit_or a 0 ≡ a
bit_or-zero_upto n zero h = refl
bit_or-zero_upto zero (suc a) h = absurd (omega arith)
bit_or-zero_upto (suc n) (suc a) h =
    omega (arith, bit_or_step (suc a) 0, bit_or-zero_upto n (suc a / 2) (omega arith))

-- `a | 0`
pub bit_or-zero : (a : ℕ) → bit_or a 0 ≡ a
bit_or-zero a = bit_or-zero_upto a a (omega arith)

zero-bit_or : (b : ℕ) → bit_or 0 b ≡ b
zero-bit_or b = bit_or-bitwise 0 b

pub bit_and-one : (x : ℕ) → bit_and x 1 ≡ x % 2
bit_and-one x = let rest = bit_and-zero (x / 2) in omega (arith, rest, bit_and_step x 1)

double_pow : (q k : ℕ) → q * 2 ^ suc k ≡ 2 * (q * 2 ^ k)
double_pow q k = omega (arith, ap (λ (t : ℕ). q * t) (pow-suc 2 k))

bit_and_low : (k q r : ℕ) → r < 2 ^ k → bit_and (q * 2 ^ k + r) (2 ^ k - 1) ≡ r
bit_and_low zero q r h = omega (arith, bit_and-zero (q * 2 ^ 0 + r))
bit_and_low (suc k) q r h = ground (
  arith,
  bit_and_step (q * 2 ^ suc k + r) (2 ^ suc k - 1),
  double_pow q k,
  pow-suc 2 k,
  bit_and_low k q (r / 2) (omega (arith, pow-suc 2 k)),
)

-- A mask of `k` ones is the remainder by `2 ^ k`.
pub bit_and_ones : (k a : ℕ) → bit_and a (2 ^ k - 1) ≡ a % 2 ^ k
bit_and_ones k a = ground (arith, one-le-pow k 2, bit_and_low k (a / 2 ^ k) (a % 2 ^ k))

-- `r | (q << k)` is a sum when `r` fits `k` bits.
pub bit_or_shifted : (k q r : ℕ) → r < 2 ^ k → bit_or r (q * 2 ^ k) ≡ r + q * 2 ^ k
bit_or_shifted zero q r h = ground (arith, zero-bit_or (q * 2 ^ 0))
bit_or_shifted (suc k) q r h = ground (
  arith,
  bit_or_step r (q * 2 ^ suc k),
  double_pow q k,
  bit_or_shifted k q (r / 2) (omega (arith, pow-suc 2 k)),
)

bit_or_shifted_example : bit_or 5 (3 * 2 ^ 3) ≡ 29
bit_or_shifted_example = bit_or_shifted 3 3 5 (omega arith)

-- `(a << 1) | b` for one bit `b`.
pub bit_or_bit : (a b : ℕ) → b < 2 → bit_or (a * 2) b ≡ a * 2 + b
bit_or_bit a b h = ground (arith, bit_or_step (a * 2) b, bit_or-zero a)
