-- ===== src/Deflate/Inflate.antt =====
-- `deflate_decompress` of C-Deflate/src/inflate.c. `out` is the output so far and its length is
-- `written`; what stands in the buffer when an error is returned is not modelled. The loops that run
-- until the stream says so take fuel, and `none` is to run out of it.
pub mod Rounds
pub mod Progress
mod Tests
use foundations_lab.Base.{
  ℕ, zero, suc, ◌+◌, ◌-◌, ◌*◌, ◌^◌, bit_and, Bool, true, false, List, [], ◌∷◌, ◌++◌, Option, none,
  some, length, get_or, ltb, leb, ◌==◌, if◌then◌else◌,
}
use foundations_lab.Deflate.Bits.{BitReader, br_init, br_bits, br_align}
use foundations_lab.Deflate.Tables.{
  num_distances, end_of_block, length_base, length_extra, dist_base, dist_extra,
}
use foundations_lab.Deflate.Status.{Result, ok, err, input, output, corrupt}
use foundations_lab.Deflate.Huffman.{HuffDec, huff_build_decoder, huff_decode}
use foundations_lab.Deflate.Window.{copy_match}
use foundations_lab.Deflate.Fixed.{fixed_lit_lengths, fixed_dist_lengths}
use foundations_lab.Deflate.Header.{Scratch, read_dynamic_header}

-- Where a block ends, or an error.
abbrev pub Block : Type 0
Block = Result (BitReader × List ℕ)

-- The loop that copies `left` bytes of a stored block.
unfoldable pub stored_loop : ℕ → BitReader → List ℕ → Block
stored_loop zero r out = ok (r, out)
stored_loop (suc left) r out =
    let (byte, r') = br_bits r 8 in
    let rest = stored_loop left r' (out ++ (byte ∷ [])) in if r'.underflow then err input else rest

-- The branch `type == 0`.
unfoldable pub stored_block : ℕ → BitReader → List ℕ → Block
stored_block cap r out =
    let (len, r1) = br_bits (br_align r) 16 in
    let (nlen, r2) = br_bits r1 16 in
    let rest = stored_loop len r2 out in
    if r2.underflow
    then err input
    else if bit_and len 0xffff == bit_and (2 ^ 32 - 1 - nlen) 0xffff
    then (if ltb cap (length out + len) then err output else rest)
    else err corrupt

-- One round of the loop over symbols leads to another round, or to the end of the block.
pub data Step : Type 0 where
  more : BitReader → List ℕ → Step
  block_end : Block → Step

-- The distance of a match of `len` bytes, and the copy.
unfoldable pub match_distance : HuffDec → ℕ → BitReader → List ℕ → ℕ → Step
match_distance dist cap r out len =
    let (dc, r1) = huff_decode dist r in
    elim dc [
      | err e ↦ block_end (err corrupt)
      | ok c ↦
          let (extra, r2) = br_bits r1 (get_or dist_extra c 0) in
          let distance = get_or dist_base c 0 + extra in
          if leb num_distances c
          then block_end (err corrupt)
          else if ltb (length out) distance
          then block_end (err corrupt)
          else if ltb cap (length out + len)
          then block_end (err output)
          else more r2 (copy_match len (length out - distance) out)
    ]

-- The part of a round behind `lc = sym - 257`.
unfoldable pub match_step : HuffDec → ℕ → BitReader → List ℕ → ℕ → Step
match_step dist cap r out lc =
    let (extra, r') = br_bits r (get_or length_extra lc 0) in
    if leb 29 lc
    then block_end (err corrupt)
    else match_distance dist cap r' out (get_or length_base lc 0 + extra)

-- One round of `for (;;)`.
unfoldable pub symbol_step : HuffDec → HuffDec → ℕ → BitReader → List ℕ → Step
symbol_step lit dist cap r out =
    let (sym, r') = huff_decode lit r in
    elim sym [
      | err e ↦ block_end (err corrupt)
      | ok s ↦
          if r'.underflow
          then block_end (err input)
          else if s == end_of_block
          then block_end (ok (r', out))
          else if ltb s 256
          then (if leb cap (length out) then block_end (err output) else more r' (out ++ (s ∷ [])))
          else match_step dist cap r' out (s - 257)
    ]

unfoldable pub symbol_loop : ℕ → HuffDec → HuffDec → ℕ → BitReader → List ℕ → Option Block
symbol_loop zero lit dist cap r out = none
symbol_loop (suc fuel) lit dist cap r out = elim (symbol_step lit dist cap r out) [
  | block_end b ↦ some b
  | more r' out' ↦ symbol_loop fuel lit dist cap r' out'
]

-- The result of `huff_build_decoder` is not looked at: it is `ok` on the fixed lengths.
unfoldable pub fixed_decoder : HuffDec → List ℕ → HuffDec
fixed_decoder d lengths = elim (huff_build_decoder d lengths) [ ok d' ↦ d' | err e ↦ d ]

unfoldable pub fixed_decoders : Scratch → HuffDec × HuffDec
unfolding fixed_decoder
fixed_decoders s = (fixed_decoder s.lit fixed_lit_lengths, fixed_decoder s.dist fixed_dist_lengths)

-- A round reads one bit at least, or finds the flag set and ends: this is enough.
abbrev pub rounds : BitReader → ℕ
rounds r = 8 * length r.input + 9

-- The body of the loop over blocks, behind the type field.
unfoldable pub read_block : Scratch → ℕ → ℕ → BitReader → List ℕ → Option Block
read_block s cap type r out =
    if type == 0
    then some (stored_block cap r out)
    else if type == 3
    then some (err corrupt)
    else if type == 1
    then symbol_loop (rounds r) (fixed_decoders s).0 (fixed_decoders s).1 cap r out
    else elim (read_dynamic_header s r) [
      | err e ↦ some (err e)
      | ok ((lit, dist), r') ↦ symbol_loop (rounds r') lit dist cap r' out
    ]

-- `while (!final)`, entered with `final` clear.
unfoldable pub block_loop : ℕ → Scratch → ℕ → BitReader → List ℕ → Option (Result (List ℕ))
block_loop zero s cap r out = none
block_loop (suc fuel) s cap r out =
    let (final, r1) = br_bits r 1 in
    let (type, r2) = br_bits r1 2 in
    if r2.underflow then some (err input) else elim (read_block s cap type r2 out) [
      | none ↦ none
      | some (err e) ↦ some (err e)
      | some (ok (r3, out')) ↦
          let rest = block_loop fuel s cap r3 out' in if final == 0 then rest else some (ok out')
    ]

-- The bytes written, in place of their number; `cap` is `out_cap`.
unfoldable pub deflate_decompress : Scratch → List ℕ → ℕ → Option (Result (List ℕ))
unfolding br_init
deflate_decompress s bytes cap = block_loop (rounds (br_init bytes)) s cap (br_init bytes) []
