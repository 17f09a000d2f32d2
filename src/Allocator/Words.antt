-- ===== src/Allocator/Words.antt =====
-- The arithmetic of size_t and of word_t that C-Allocator/src/balloc.c uses: 64 bits, with the
-- wrap-around written out.
use foundations_lab.Base.{
  ℕ, zero, suc, ◌+◌, ◌-◌, ◌*◌, ◌/◌, ◌%◌, ◌^◌, ◌≤◌, ◌<◌, ◌≡◌, ap, ◌∙◌, arith, bit_and, bit_or,
  bit_and_step, bit_and_ones, bit_or-zero, bit_or_bit,
}
use Prim.Native.Nat.{min, bit_and-bitwise}
use native.Mathlib.Nat.{pow-suc}

-- 2 ^ 64, past the largest size_t.
abbrev pub word_end : ℕ
word_end = 18446744073709551616

unfoldable pub add64 : ℕ → ℕ → ℕ
add64 a b = (a + b) % word_end

unfoldable pub sub64 : ℕ → ℕ → ℕ
sub64 a b = (a + (word_end - b)) % word_end

unfoldable pub mul64 : ℕ → ℕ → ℕ
mul64 a b = a * b % word_end

-- `~a`
unfoldable pub not64 : ℕ → ℕ
not64 a = word_end - 1 - a

-- `ALIGN_UP(n, a)`: `((n) + (a) - 1) & ~((a) - 1)`
unfoldable pub align_up : ℕ → ℕ → ℕ
align_up n a = bit_and (sub64 (add64 n a) 1) (not64 (sub64 a 1))

-- `PACK(size, alloc)`
unfoldable pub pack : ℕ → ℕ → ℕ
pack size alloc = bit_or size alloc

-- `BLK_SIZE` of a word: the word without its three low bits.
unfoldable pub size_bits : ℕ → ℕ
size_bits word = bit_and word (not64 7)

-- `BLK_ALLOC` of a word: its lowest bit.
unfoldable pub alloc_bit : ℕ → ℕ
alloc_bit word = bit_and word 1

pub add64-exact : (a b : ℕ) → a + b < word_end → add64 a b ≡ a + b
unfolding add64
add64-exact a b h = omega arith

pub sub64-exact : (a b : ℕ) → b ≤ a → a < word_end → sub64 a b ≡ a - b
unfolding sub64
sub64-exact a b h k = omega arith

pub sub64_lt : (a b : ℕ) → sub64 a b < word_end
unfolding sub64
sub64_lt a b = omega arith

-- A mask and its complement share the bits of a number out between them.
pub bit_and-complement :
    (k x y : ℕ) → x < 2 ^ k → y < 2 ^ k → bit_and x (2 ^ k - 1 - y) + bit_and x y ≡ x
bit_and-complement zero zero y h l = omega (
  arith,
  bit_and_step zero (2 ^ 0 - 1 - y),
  bit_and_step zero y,
  bit_and-bitwise 0 (2 ^ 0 - 1 - y),
  bit_and-bitwise 0 y,
)
bit_and-complement zero (suc x) y h l = absurd (omega arith)
bit_and-complement (suc k) x y h l =
    let doubled = pow-suc 2 k in
    let half : (2 ^ suc k - 1 - y) / 2 ≡ 2 ^ k - 1 - y / 2 = omega (arith, doubled) in
    let upper =
      bit_and-complement k (x / 2) (y / 2) (omega (arith, doubled)) (omega (arith, doubled)) in
    let first =
      bit_and_step x (2 ^ suc k - 1 - y)
      ∙ ap (λ (t : ℕ). bit_and (x / 2) t * 2 + min (x % 2) ((2 ^ suc k - 1 - y) % 2)) half in
    omega (arith, upper, first, bit_and_step x y, doubled)

-- Clearing the bits of a mask takes away what the mask keeps.
pub bit_and-not64 : (x y : ℕ) → x < word_end → y < word_end → bit_and x (not64 y) + bit_and x y ≡ x
unfolding not64
bit_and-not64 x y h l = bit_and-complement 64 x y h l

pub size_bits-eq : (word : ℕ) → word < word_end → size_bits word + word % 8 ≡ word
unfolding size_bits
size_bits-eq word h = omega (arith, bit_and-not64 word 7 h (omega arith), bit_and_ones 3 word)

pub alloc_bit-eq : (word : ℕ) → alloc_bit word ≡ word % 2
unfolding alloc_bit
alloc_bit-eq word = bit_and_ones 1 word

pub pack-used : (size : ℕ) → size % 8 ≡ 0 → pack size 1 ≡ size + 1
unfolding pack
pack-used size h =
    ap (λ (t : ℕ). bit_or t 1) {x = size} {y = size / 2 * 2} (omega arith)
    ∙ bit_or_bit (size / 2) 1 (omega arith)
    ∙ omega arith

pub pack-free : (size : ℕ) → pack size 0 ≡ size
unfolding pack
pack-free size = bit_or-zero size

-- Rounding up to a multiple of 16.
pub align_up_sixteen : (n : ℕ) → n + 15 < word_end → align_up n 16 ≡ (n + 15) / 16 * 16
unfolding align_up sub64 add64
align_up_sixteen n h =
    let sum : ((n + 16) % word_end + (word_end - 1)) % word_end ≡ n + 15 = omega arith in
    let kept = ap (λ (t : ℕ). bit_and t (not64 15)) sum in
    omega (arith, kept, bit_and-not64 (n + 15) 15 h (omega arith), bit_and_ones 4 (n + 15))
