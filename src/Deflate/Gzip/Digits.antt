-- ===== src/Deflate/Gzip/Digits.antt =====
-- The operations on `uint32_t` that `deflate_crc32` of C-Deflate/src/inflate.c uses, on lists of binary
-- digits.
use foundations_lab.Base.{
  ℕ, zero, suc, ◌+◌, ◌*◌, ◌/◌, ◌%◌, ◌^◌, ◌≤◌, ◌<◌, ◌≡◌, refl, ap, ap₂, ◌∙◌, arith, bit_xor,
  bit_xor_step, Bool, true, false, List, [], ◌∷◌, ◌++◌, length, take, drop, replicate, ◌==◌,
}
use Prim.Native.Nat.{differ}
use native.Mathlib.Nat.{pow-suc, one-le-pow}
use foundations_lab.Deflate.Stream.{double_pow}
use foundations_lab.Deflate.Gzip.Register.{digit, value, low_bits, xor, add_bits}

pub value-cons_half : (b : Bool) (bs : List Bool) → value (b ∷ bs) / 2 ≡ value bs
unfolding value
value-cons_half true bs = omega arith
value-cons_half false bs = omega arith

pub value-cons_low : (b : Bool) (bs : List Bool) → value (b ∷ bs) % 2 ≡ digit b
unfolding value
value-cons_low true bs = omega arith
value-cons_low false bs = omega arith

differ-digit : (r b : Bool) → differ (digit r) (digit b) ≡ digit (xor b r)
differ-digit true true = refl
differ-digit true false = refl
differ-digit false true = refl
differ-digit false false = refl

bit_xor-cons :
    (r b : Bool) (rs bs : List Bool)
    → bit_xor (value (r ∷ rs)) (value (b ∷ bs))
      ≡ digit (xor b r) + 2 * bit_xor (value rs) (value bs)
bit_xor-cons r b rs bs =
    let halves = ap₂ bit_xor (value-cons_half r rs) (value-cons_half b bs) in
    let lows = ap₂ differ (value-cons_low r rs) (value-cons_low b bs) ∙ differ-digit r b in
    omega (arith, bit_xor_step (value (r ∷ rs)) (value (b ∷ bs)), halves, lows)

pub bit_xor-value :
    (rs bs : List Bool)
    → length bs ≤ length rs
    → bit_xor (value rs) (value bs) ≡ value (add_bits bs rs)
unfolding value add_bits
bit_xor-value [] [] h = refl
bit_xor-value [] (b ∷ bs) h = absurd (omega arith)
bit_xor-value (r ∷ rs) [] h =
    bit_xor-cons r false rs [] ∙ ap (λ (t : ℕ). digit r + 2 * t) (bit_xor-value rs [] (omega arith))
bit_xor-value (r ∷ rs) (b ∷ bs) h =
    bit_xor-cons r b rs bs
    ∙ ap (λ (t : ℕ). digit (xor b r) + 2 * t) (bit_xor-value rs bs (omega arith))

digit_lt : (b : Bool) → digit b < 2
digit_lt true = omega arith
digit_lt false = omega arith

-- The front of a list and the rest, as a remainder and a quotient.
pub value-parts :
    (n : ℕ) (bs : List Bool)
    → (value bs ≡ value (take n bs) + value (drop n bs) * 2 ^ n) × (value (take n bs) < 2 ^ n)
unfolding value
value-parts zero bs = (omega arith, omega arith)
value-parts (suc n) [] = (omega arith, omega (arith, one-le-pow (suc n) 2))
value-parts (suc n) (b ∷ bs) =
    let (sum, small) = value-parts n bs in
    let doubled = double_pow (value (drop n bs)) n in
    let pow = pow-suc 2 n in (omega (arith, sum, doubled), omega (arith, small, pow, digit_lt b))

pub value-zeros : (bs : List Bool) (n : ℕ) → value (bs ++ replicate n false) ≡ value bs
unfolding value
value-zeros [] zero = refl
value-zeros [] (suc n) = omega (arith, value-zeros [] n)
value-zeros (b ∷ bs) n = ap (λ (t : ℕ). digit b + 2 * t) (value-zeros bs n)

odd-digit : (v : ℕ) → digit (v % 2 == 1) ≡ v % 2
odd-digit v = ground arith

pub value-low_bits : (n v : ℕ) → v < 2 ^ n → value (low_bits n v) ≡ v
unfolding value low_bits
value-low_bits zero v h = omega arith
value-low_bits (suc n) v h =
    omega (arith, odd-digit v, value-low_bits n (v / 2) (omega (arith, pow-suc 2 n)))

pub length-low_bits : (n v : ℕ) → length (low_bits n v) ≡ n
unfolding low_bits
length-low_bits zero v = refl
length-low_bits (suc n) v = ap suc (length-low_bits n (v / 2))
