-- ===== src/Deflate/Header.antt =====
-- `read_dynamic_header` of C-Deflate/src/inflate.c: the code lengths that a dynamic block begins with.
-- The array `lengths` is the list of the `n` entries written so far, so that `lengths[n++] = v`
-- appends.
pub mod Progress
mod Tests
use foundations_lab.Base.{
  ℕ, zero, suc, ◌+◌, ◌-◌, Bool, true, false, List, [], ◌∷◌, ◌++◌, length, get_or, set, take, drop,
  ltb, ◌==◌, if◌then◌else◌,
}
use foundations_lab.Deflate.Bits.{BitReader, br_bits}
use foundations_lab.Deflate.Tables.{num_literals, num_distances, num_codelen, codelen_order}
use foundations_lab.Deflate.Status.{Result, ok, err, input, corrupt, ◌>>=◌}
use foundations_lab.Deflate.Huffman.{HuffDec, zeros, huff_build_decoder, huff_decode}

-- The decoders on the stack before they are filled in.
pub record Scratch : Type 0 where
  pub lit : HuffDec
  pub dist : HuffDec
  pub codelen : HuffDec

-- `for (i < hclen) cl_len[CODELEN_ORDER[i]] = br_bits(r, 3);` from `i` on, with `left` rounds to go.
unfoldable pub read_codelens : ℕ → ℕ → BitReader → List ℕ → List ℕ × BitReader
read_codelens zero i r cl_len = (cl_len, r)
read_codelens (suc left) i r cl_len =
    let (v, r') = br_bits r 3 in
    read_codelens left (i + 1) r' (set cl_len (get_or codelen_order i 0) v)

-- `while (repeat-- > 0 && n < total) lengths[n++] = value;`
unfoldable pub fill_run : ℕ → ℕ → ℕ → List ℕ → List ℕ
fill_run zero value total lengths = lengths
fill_run (suc repeat) value total lengths =
    let rest = fill_run repeat value total (lengths ++ (value ∷ [])) in
    if ltb (length lengths) total then rest else lengths

-- A run whose repeat count is `base` and the next `width` bits.
unfoldable pub read_run : ℕ → ℕ → ℕ → ℕ → BitReader → List ℕ → List ℕ × BitReader
read_run base width value total r lengths =
    let (extra, r') = br_bits r width in (fill_run (base + extra) value total lengths, r')

-- What the loop does with the symbol it decoded.
unfoldable pub take_symbol : ℕ → ℕ → BitReader → List ℕ → Result (List ℕ × BitReader)
unfolding read_run
take_symbol sym total r lengths =
    if ltb sym 16
    then ok (lengths ++ (sym ∷ []), r)
    else if sym == 16
    then (if length lengths == 0
        then err corrupt
        else ok (read_run 3 2 (get_or lengths (length lengths - 1) 0) total r lengths))
    else if sym == 17
    then ok (read_run 3 3 0 total r lengths)
    else ok (read_run 11 7 0 total r lengths)

-- One round of the loop, with the test of the flag at its end.
unfoldable pub lengths_step : HuffDec → ℕ → BitReader → List ℕ → Result (List ℕ × BitReader)
lengths_step cl_dec total r lengths =
    let (sym, r') = huff_decode cl_dec r in
    do
      s ← sym
      (lengths', r'') ← take_symbol s total r' lengths
      if r''.underflow then err input else ok (lengths', r'')

-- The loop `while (n < total)`; a round writes one entry at least, so `total` rounds do.
unfoldable pub read_lengths : ℕ → HuffDec → ℕ → BitReader → List ℕ → Result (List ℕ × BitReader)
read_lengths zero cl_dec total r lengths = ok (lengths, r)
read_lengths (suc fuel) cl_dec total r lengths =
    if ltb (length lengths) total
    then (lengths_step cl_dec total r lengths >>= λ (lengths', r').
        read_lengths fuel cl_dec total r' lengths')
    else ok (lengths, r)

-- The two decoders, from the lengths of both alphabets in one array.
unfoldable pub build_pair :
    Scratch → ℕ → List ℕ → BitReader → Result ((HuffDec × HuffDec) × BitReader)
build_pair s hlit lengths r = do
  lit ← huff_build_decoder s.lit (take hlit lengths)
  dist ← huff_build_decoder s.dist (drop hlit lengths)
  ok ((lit, dist), r)

-- The part behind the lengths of the code-length code.
unfoldable pub read_tables :
    Scratch → ℕ → ℕ → List ℕ → BitReader → Result ((HuffDec × HuffDec) × BitReader)
unfolding build_pair
read_tables s hlit hdist cl_len r = do
  cl_dec ← huff_build_decoder s.codelen cl_len
  (lengths, r') ← read_lengths (hlit + hdist) cl_dec (hlit + hdist) r []
  build_pair s hlit lengths r'

unfoldable pub read_dynamic_header : Scratch → BitReader → Result ((HuffDec × HuffDec) × BitReader)
unfolding read_tables
read_dynamic_header s r =
    let (lit_field, r1) = br_bits r 5 in
    let (dist_field, r2) = br_bits r1 5 in
    let (len_field, r3) = br_bits r2 4 in
    let hlit = lit_field + 257 in
    let hdist = dist_field + 1 in
    let (cl_len, r4) = read_codelens (len_field + 4) 0 r3 (zeros num_codelen) in
    if ltb num_literals hlit
    then err corrupt
    else if ltb num_distances hdist
    then err corrupt
    else read_tables s hlit hdist cl_len r4
