-- ===== src/Deflate/Huffman/Progress.antt =====
-- `huff_decode` of C-Deflate/src/huffman.c uses up a bit of the stream, whatever code it meets.
use foundations_lab.Base.{ℕ, zero, suc, ◌+◌, ◌*◌, ltb, get_or, bit_or, arith, Bool-cases, inl, inr}
use foundations_lab.Deflate.Bits.{BitReader, br_bits}
use foundations_lab.Deflate.Bits.Reader.{IsOpen}
use foundations_lab.Deflate.Bits.Progress.{
  IsAfter, IsAfter-start, IsAfter-trans, IsAfter-weaken, br_bits-IsAfter,
}
use foundations_lab.Deflate.Huffman.{HuffDec, decode_loop, huff_decode}

decode_loop-IsAfter :
    (d : HuffDec) (rounds len code first index : ℕ) (r : BitReader)
    → IsOpen r
    → IsAfter 0 r (decode_loop d rounds len code first index r).1
unfolding decode_loop
decode_loop-IsAfter d zero len code first index r o = IsAfter-start r o
decode_loop-IsAfter d (suc rounds) len code first index r o =
    let r' = (br_bits r 1).1 in
    let code' = bit_or code (br_bits r 1).0 in
    let count = get_or d.counts len 0 in
    let bit = IsAfter-weaken 1 0 r r' (omega arith) (br_bits-IsAfter r 1 o (omega arith)) in
    elim (Bool-cases (ltb code' (first + count))) [
      | inl found ↦ rw found bit
      | inr not_found ↦ rw not_found (
          IsAfter-trans 0 0 r r' _ bit (
            decode_loop-IsAfter d rounds (len + 1) (code' * 2) ((first + count) * 2) (index + count)
              r' bit.opened))
    ]

pub huff_decode-IsAfter : (d : HuffDec) (r : BitReader) → IsOpen r → IsAfter 1 r (huff_decode d r).1
unfolding huff_decode decode_loop
huff_decode-IsAfter d r o =
    let r' = (br_bits r 1).1 in
    let code' = bit_or 0 (br_bits r 1).0 in
    let count = get_or d.counts 1 0 in
    let bit = br_bits-IsAfter r 1 o (omega arith) in
    elim (Bool-cases (ltb code' (0 + count))) [
      | inl found ↦ rw found bit
      | inr not_found ↦ rw not_found (
          IsAfter-trans 1 0 r r' _ bit
            (decode_loop-IsAfter d 14 2 (code' * 2) ((0 + count) * 2) (0 + count) r' bit.opened))
    ]
