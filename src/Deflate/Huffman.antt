-- ===== src/Deflate/Huffman.antt =====
-- C-Deflate/src/huffman.c: canonical codes from code lengths, the decoder's tables, and decoding.
-- A `lengths` array of `n` entries is a list of `n` numbers. A `uint16_t` wraps at 2 ^ 16.
pub mod Count
pub mod Kraft
pub mod Codes
pub mod Symbols
pub mod Decode
pub mod Accepts
pub mod Progress
mod Tests
use foundations_lab.Base.{
  ℕ, zero, suc, ◌+◌, ◌-◌, ◌*◌, ◌%◌, ◌^◌, bit_or, Bool, true, false, List, [], ◌∷◌, get_or, set,
  replicate, ltb, ◌==◌, if◌then◌else◌,
}
use foundations_lab.Deflate.Bits.{u32, BitReader, br_bits}
use foundations_lab.Deflate.Tables.{max_code_bits}
use foundations_lab.Deflate.Status.{Result, ok, err, corrupt, ◌>>=◌}

-- Conversion to `uint16_t`.
abbrev pub u16 : ℕ → ℕ
u16 n = n % 2 ^ 16

-- An array initialised by `{0}`.
unfoldable pub zeros : ℕ → List ℕ
zeros n = replicate n 0

-- `a[i]++` on an array of `uint16_t`.
unfoldable pub bump : List ℕ → ℕ → List ℕ
bump a i = set a i (u16 (get_or a i 0 + 1))

-- `for (i) if (lengths[i]) bl_count[lengths[i]]++;`
unfoldable pub count_lengths : List ℕ → List ℕ → List ℕ
unfolding bump
count_lengths [] bl_count = bl_count
count_lengths (l ∷ ls) bl_count = count_lengths ls (if l == 0 then bl_count else bump bl_count l)

-- The loop over `bits`, with `left` rounds to go.
unfoldable pub first_codes : ℕ → ℕ → ℕ → List ℕ → List ℕ → List ℕ
first_codes zero bits code bl_count next_code = next_code
first_codes (suc left) bits code bl_count next_code =
    let code' = u32 (u32 (code + get_or bl_count (bits - 1) 0) * 2) in
    first_codes left (bits + 1) code' bl_count (set next_code bits (u16 code'))

-- The last loop, which writes `codes` from the first entry to the last.
unfoldable pub assign : List ℕ → List ℕ → List ℕ
unfolding bump
assign [] next_code = []
assign (l ∷ ls) next_code =
    (if l == 0 then 0 else get_or next_code l 0)
    ∷ assign ls (if l == 0 then next_code else bump next_code l)

unfoldable pub next_codes : List ℕ → List ℕ
next_codes bl_count = first_codes max_code_bits 1 0 bl_count (zeros 17)

unfoldable pub huff_assign_codes : List ℕ → List ℕ
huff_assign_codes lengths = assign lengths (next_codes (count_lengths lengths (zeros 16)))

pub record HuffDec : Type 0 where
  pub counts : List ℕ
  pub symbols : List ℕ

-- The first loop of `huff_build_decoder`: a length above 15 is refused.
unfoldable pub count_checked : List ℕ → List ℕ → Result (List ℕ)
unfolding bump
count_checked [] counts = ok counts
count_checked (l ∷ ls) counts =
    let rest = count_checked ls (bump counts l) in if ltb max_code_bits l then err corrupt else rest

-- The loop over `left`, false where `left` falls below zero.
unfoldable pub is_not_oversubscribed : ℕ → ℕ → ℕ → List ℕ → Bool
is_not_oversubscribed zero bits left counts = true
is_not_oversubscribed (suc rounds) bits left counts =
    let count = get_or counts bits 0 in
    let rest = is_not_oversubscribed rounds (bits + 1) (left * 2 - count) counts in
    if ltb (left * 2) count then false else rest

-- `for (bits) offsets[bits + 1] = offsets[bits] + counts[bits];`
unfoldable pub sum_offsets : ℕ → ℕ → List ℕ → List ℕ → List ℕ
sum_offsets zero bits counts offsets = offsets
sum_offsets (suc left) bits counts offsets =
    sum_offsets left (bits + 1) counts
      (set offsets (bits + 1) (u16 (get_or offsets bits 0 + get_or counts bits 0)))

-- `for (i) if (lengths[i]) symbols[offsets[lengths[i]]++] = i;`
unfoldable pub place_symbols : List ℕ → ℕ → List ℕ → List ℕ → List ℕ
unfolding bump
place_symbols [] i offsets symbols = symbols
place_symbols (l ∷ ls) i offsets symbols =
    place_symbols ls (i + 1) (if l == 0 then offsets else bump offsets l)
      (if l == 0 then symbols else set symbols (get_or offsets l 0) (u16 i))

-- The tables, once the lengths are counted: `counts[0]` is cleared before the check.
unfoldable pub fill_decoder : HuffDec → List ℕ → List ℕ → Result HuffDec
fill_decoder d lengths counts =
    let offsets = sum_offsets max_code_bits 1 counts (zeros 17) in
    if is_not_oversubscribed max_code_bits 1 1 counts
    then ok (record { counts = counts; symbols = place_symbols lengths 0 offsets d.symbols })
    else err corrupt

-- `d` is the decoder to be filled in: what `symbols` holds before is kept where nothing is written.
unfoldable pub huff_build_decoder : HuffDec → List ℕ → Result HuffDec
huff_build_decoder d lengths = do
  tally ← count_checked lengths (zeros 16)
  fill_decoder d lengths (set tally 0 0)

-- The loop of `huff_decode` at length `len`, with `left` rounds to go. `code` never falls below
-- `first`, so the test `code - first < count` is made without the subtraction.
unfoldable pub decode_loop : HuffDec → ℕ → ℕ → ℕ → ℕ → ℕ → BitReader → Result ℕ × BitReader
decode_loop d zero len code first index r = (err corrupt, r)
decode_loop d (suc left) len code first index r =
    let (bit, r') = br_bits r 1 in
    let code' = bit_or code bit in
    let count = get_or d.counts len 0 in
    let rest = decode_loop d left (len + 1) (code' * 2) ((first + count) * 2) (index + count) r' in
    if ltb code' (first + count)
    then (ok (get_or d.symbols (index + (code' - first)) 0), r')
    else rest

unfoldable pub huff_decode : HuffDec → BitReader → Result ℕ × BitReader
huff_decode d r = decode_loop d max_code_bits 1 0 0 0 r
