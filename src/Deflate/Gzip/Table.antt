-- ===== src/Deflate/Gzip/Table.antt =====
-- The table of `deflate_crc32` of C-Deflate/src/inflate.c against the division by the polynomial, one
-- bit at a time.
use foundations_lab.Base.{
  ℕ, zero, suc, ◌+◌, ◌/◌, ◌^◌, ◌<◌, ◌≡◌, refl, ap, ap₂, sym, ◌∙◌, arith, bit_and, bit_and_ones,
  bit_and-one, bit_xor, Bool, true, false, not, List, [], ◌∷◌, ◌++◌, map, All, get_or, length,
  length-drop, length-take, length-append, take, take_all, drop, replicate,
}
use foundations_lab.Deflate.Bits.Reader.{IsByte}
use foundations_lab.Deflate.Gzip.{crc_shift, crc_shifts, crc_table, crc_loop, deflate_crc32}
use foundations_lab.Deflate.Gzip.Register.{
  value, low_bits, add_bits, polynomial, feed, feed_all, feed_bytes, register_crc, length-add_bits,
  length-feed, length-feed_all, feed_all-add_bits, feed_all-shift,
}
use foundations_lab.Deflate.Gzip.Digits.{
  bit_xor-value, value-parts, value-zeros, value-low_bits, length-low_bits, value-cons_half,
  value-cons_low,
}

-- A shift of the register of numbers is a shift of the register of digits.
crc_shift-value :
    (reg : List Bool) → length reg ≡ 32 → crc_shift (value reg) ≡ value (feed false reg)
unfolding crc_shift feed value
crc_shift-value [] h = absurd (omega arith)
crc_shift-value (true ∷ rs) h =
    rw (bit_and-one (value (true ∷ rs)), value-cons_low true rs, value-cons_half true rs)
      (bit_xor-value polynomial rs (omega arith))
crc_shift-value (false ∷ rs) h =
    rw (bit_and-one (value (false ∷ rs)), value-cons_low false rs, value-cons_half false rs)
      (sym (value-zeros rs 1))

crc_shifts-value :
    (n : ℕ) (reg : List Bool)
    → length reg ≡ 32
    → crc_shifts n (value reg) ≡ value (feed_all (replicate n false) reg)
unfolding crc_shifts feed_all
crc_shifts-value zero reg h = refl
crc_shifts-value (suc n) reg h =
    ap (crc_shifts n) (crc_shift-value reg h)
    ∙ crc_shifts-value n (feed false reg) (length-feed false reg h)

crc_table_lem : (left i k : ℕ) → k < left → get_or (crc_table left i) k 0 ≡ crc_shifts 8 (i + k)
unfolding crc_table
crc_table_lem zero i k h = absurd (omega arith)
crc_table_lem (suc left) i zero h = ap (crc_shifts 8) (omega arith)
crc_table_lem (suc left) i (suc k) h =
    crc_table_lem left (i + 1) k (omega arith)
    ∙ ap (crc_shifts 8) {x = i + 1 + k} {y = i + suc k} (omega arith)

entry : (x : ℕ) → get_or (crc_table 256 0) (bit_and x 0xff) 0 ≡ crc_shifts 8 (bit_and x 0xff)
entry x =
    crc_table_lem 256 0 (bit_and x 0xff) (omega (arith, bit_and_ones 8 x))
    ∙ ap (crc_shifts 8) {x = 0 + bit_and x 0xff} {y = bit_and x 0xff} (omega arith)

-- A list is its front with the rest added behind it.
parted :
    (n k : ℕ) (bs : List Bool)
    → length bs ≡ n + k
    → add_bits (replicate n false ++ drop n bs) (take n bs ++ replicate k false) ≡ bs
unfolding add_bits
parted zero zero [] h = refl
parted zero zero (b ∷ bs) h = absurd (omega arith)
parted zero (suc k) [] h = absurd (omega arith)
parted zero (suc k) (true ∷ bs) h =
    ap (λ (t : List Bool). true ∷ t) (parted zero k bs (omega arith))
parted zero (suc k) (false ∷ bs) h =
    ap (λ (t : List Bool). false ∷ t) (parted zero k bs (omega arith))
parted (suc n) k [] h = absurd (omega arith)
parted (suc n) k (b ∷ bs) h = ap (λ (t : List Bool). b ∷ t) (parted n k bs (omega arith))

drop-add_bits : (bs rs : List Bool) → drop (length bs) (add_bits bs rs) ≡ drop (length bs) rs
unfolding add_bits
drop-add_bits [] rs = refl
drop-add_bits (b ∷ bs) [] = refl
drop-add_bits (b ∷ bs) (r ∷ rs) = drop-add_bits bs rs

-- The register after a byte, by the table and by its bits.
crc_byte :
    (b : ℕ) (reg : List Bool)
    → b < 256
    → length reg ≡ 32
    → bit_xor
        (get_or (crc_table 256 0) (bit_and (bit_xor (value reg) b) 0xff) 0)
        (value reg / 2 ^ 8)
      ≡ value (feed_all (low_bits 8 b) reg)
crc_byte b reg small full =
    let bits = low_bits 8 b in
    let eight = length-low_bits 8 b in
    let mixed = add_bits bits reg in
    let size : length mixed ≡ 32 = length-add_bits bits reg ∙ full in
    let (sum, low) = value-parts 8 mixed in
    let (sum', low') = value-parts 8 reg in
    let head = take 8 mixed ++ replicate 24 false in
    let head_size : length head ≡ 32 = omega (
      arith,
      length-append (take 8 mixed) (replicate 24 false),
      length-take 8 mixed (omega arith),
    ) in
    let sums : bit_xor (value reg) b ≡ value mixed =
      ap (bit_xor (value reg)) (sym (value-low_bits 8 b (omega arith)))
      ∙ bit_xor-value reg bits (omega arith) in
    let index : bit_and (bit_xor (value reg) b) 0xff ≡ value head =
      omega (arith, bit_and_ones 8 (bit_xor (value reg) b), sums, value-zeros (take 8 mixed) 24) in
    let rest : value reg / 2 ^ 8 ≡ value (drop 8 mixed) =
      omega (arith, sum')
      ∙ sym (
          ap value (
            ap (λ (n : ℕ). drop n mixed) (sym eight)
            ∙ drop-add_bits bits reg
            ∙ ap (λ (n : ℕ). drop n reg) eight)) in
    let shifted = feed_all (replicate 8 false) head in
    let looked_up : get_or (crc_table 256 0) (bit_and (bit_xor (value reg) b) 0xff) 0
        ≡ value shifted =
      entry (bit_xor (value reg) b) ∙ ap (crc_shifts 8) index ∙ crc_shifts-value 8 head head_size in
    let behind : length (drop 8 mixed) ≡ 24 = omega (arith, length-drop 8 mixed) in
    ap₂ bit_xor looked_up rest
    ∙ bit_xor-value shifted (drop 8 mixed)
        (omega (arith, length-feed_all (replicate 8 false) head head_size))
    ∙ ap value (
        sym (feed_all-shift 8 (drop 8 mixed) head head_size (omega arith))
        ∙ ap (feed_all (replicate 8 false)) (parted 8 24 mixed (omega arith))
        ∙ ap (λ (n : ℕ). feed_all (replicate n false) mixed) (sym eight)
        ∙ sym (feed_all-add_bits bits reg full (omega arith)))

crc_loop-value :
    (bytes : List ℕ) (reg : List Bool)
    → All IsByte bytes
    → length reg ≡ 32
    → crc_loop (crc_table 256 0) bytes (value reg) ≡ value (feed_bytes bytes reg)
      × (length (feed_bytes bytes reg) ≡ 32)
unfolding crc_loop feed_bytes
crc_loop-value [] reg small full = (refl, full)
crc_loop-value (b ∷ bs) reg small full =
    let next = feed_all (low_bits 8 b) reg in
    let (same, size) = crc_loop-value bs next small.1 (length-feed_all (low_bits 8 b) reg full) in
    (ap (crc_loop (crc_table 256 0) bs) (crc_byte b reg small.0 full) ∙ same, size)

complement : (reg : List Bool) → add_bits (replicate (length reg) true) reg ≡ map not reg
unfolding add_bits
complement [] = refl
complement (r ∷ reg) = ap (λ (t : List Bool). not r ∷ t) (complement reg)

ones : value (replicate 32 true) ≡ 0xffffffff
unfolding value
ones = refl

length-map-not : (bs : List Bool) → length (map not bs) ≡ length bs
length-map-not [] = refl
length-map-not (b ∷ bs) = ap suc (length-map-not bs)

pub register_crc_lt : (bytes : List ℕ) → All IsByte bytes → register_crc bytes < 2 ^ 32
unfolding register_crc
register_crc_lt bytes small =
    let reg = map not (feed_bytes bytes (replicate 32 true)) in
    let size : length reg ≡ 32 =
      length-map-not (feed_bytes bytes (replicate 32 true))
      ∙ (crc_loop-value bytes (replicate 32 true) small refl).1 in
    let (_, low) = value-parts 32 reg in
    omega (arith, low, ap value (take_all 32 reg (omega arith)))

-- On bytes, `deflate_crc32` is the CRC-32 of a shift register of 32 bits that starts with ones,
-- takes in the bits of the message one at a time, the lowest of each byte first, adds the
-- polynomial of CRC-32 where the bit and the front of the register differ, and is complemented at
-- the end.
pub deflate_crc32-register_crc :
    (bytes : List ℕ) → All IsByte bytes → deflate_crc32 bytes ≡ register_crc bytes
unfolding deflate_crc32 register_crc
deflate_crc32-register_crc bytes small =
    let start = replicate 32 true in
    let reg = feed_bytes bytes start in
    let (same, size) = crc_loop-value bytes start small refl in
    ap₂ bit_xor (ap (crc_loop (crc_table 256 0) bytes) (sym ones) ∙ same) (sym ones)
    ∙ bit_xor-value reg start (omega arith)
    ∙ ap value (ap (λ (n : ℕ). add_bits (replicate n true) reg) (sym size) ∙ complement reg)
