-- ===== src/Deflate/RoundTrip/Fixed.antt =====
-- A block in the fixed code: what C-Deflate/src/deflate.c writes for tokens, C-Deflate/src/inflate.c
-- expands.
use foundations_lab.Base.{
  ℕ, ◌+◌, ◌-◌, ◌*◌, ◌%◌, ◌^◌, ◌≤◌, ◌<◌, ◌≡◌, refl, ap, ◌∙◌, arith, List, [], ◌∷◌, ◌++◌,
  append_assoc, length, length-append, All, some, false, inl, inr,
}
use foundations_lab.Deflate.Stream.{lsb, length-lsb}
use foundations_lab.Deflate.Bits.{BitWriter, bw_init, bw_bits, bw_finish, br_init}
use foundations_lab.Deflate.Bits.Writer.{IsReady}
use foundations_lab.Deflate.Bits.Reader.{pending, length-pending}
use foundations_lab.Deflate.Bits.Appends.{
  Appends, Appends-trans, Fits, Fits-Appends, bw_bits-Appends,
}
use foundations_lab.Deflate.Tables.{length_to_code, distance_to_code}
use foundations_lab.Deflate.Tables.Search.{length_to_code-IsCodeOf, distance_to_code-IsCodeOf}
use foundations_lab.Deflate.Huffman.{HuffDec}
use foundations_lab.Deflate.Huffman.Count.{IsLength}
use foundations_lab.Deflate.Huffman.Kraft.{IsKraft}
use foundations_lab.Deflate.Huffman.Decode.{IsDecoderOf, huff_build_decoder_lem}
use foundations_lab.Deflate.Huffman.Accepts.{huff_build_decoder_accepts}
use foundations_lab.Deflate.Window.{Token, IsToken, IsReachable, expand}
use foundations_lab.Deflate.Fixed.{
  fixed_lit_lengths, fixed_dist_lengths, length-fixed_lit_lengths, length-fixed_dist_lengths,
  fixed_lit_used, fixed_dist_used, fixed_lit-IsKraft, fixed_dist-IsKraft, fixed_lit-IsLength,
  fixed_dist-IsLength,
}
use foundations_lab.Deflate.Header.{Scratch}
use foundations_lab.Deflate.Inflate.{
  rounds, fixed_decoder, fixed_decoders, read_block, block_loop, deflate_decompress,
}
use foundations_lab.Deflate.Compress.{codes_of, fixed_codes, emit_fixed, finish}
use foundations_lab.Deflate.RoundTrip.Blocks.{IsReadAs, block_loop_reads}
use foundations_lab.Deflate.RoundTrip.Finish.{
  IsRestored, finish-IsFinished, bw_init-IsReady, bw_init-Fits, rounds_start,
}
use foundations_lab.Deflate.RoundTrip.Tokens.{IsShort, stream_of, emit_tokens-Appends}
use foundations_lab.Deflate.RoundTrip.Tokens.Read.{IsCovered, symbol_loop_reads}
use foundations_lab.Deflate.RoundTrip.Tokens.Cost.{length-stream_of}

-- The arrays of the decoders on the stack are as large as `huff_dec` says.
abbrev pub IsRoomy : Scratch → Type 0
IsRoomy s =
    (286 ≤ length s.lit.symbols) × (286 ≤ length s.dist.symbols) × (286 ≤ length s.codelen.symbols)

fixed_decoder-IsDecoderOf :
    (d : HuffDec) (ls : List ℕ)
    → length ls < 2 ^ 15
    → length ls ≤ length d.symbols
    → All IsLength ls
    → IsKraft ls
    → IsDecoderOf ls (fixed_decoder d ls)
unfolding fixed_decoder
fixed_decoder-IsDecoderOf d ls short room small kraft =
    let (d', built) = (huff_build_decoder_accepts d ls short).1 (small, kraft) in
    rw (built, fixed_decoder) (huff_build_decoder_lem d d' ls short room built)

pub fixed_lit-IsDecoderOf :
    (s : Scratch) → IsRoomy s → IsDecoderOf fixed_lit_lengths (fixed_decoders s).0
unfolding fixed_decoders
fixed_lit-IsDecoderOf s room =
    fixed_decoder-IsDecoderOf s.lit fixed_lit_lengths (omega (arith, length-fixed_lit_lengths))
      (omega (arith, length-fixed_lit_lengths)) fixed_lit-IsLength fixed_lit-IsKraft

pub fixed_dist-IsDecoderOf :
    (s : Scratch) → IsRoomy s → IsDecoderOf fixed_dist_lengths (fixed_decoders s).1
unfolding fixed_decoders
fixed_dist-IsDecoderOf s room =
    fixed_decoder-IsDecoderOf s.dist fixed_dist_lengths (omega (arith, length-fixed_dist_lengths))
      (omega (arith, length-fixed_dist_lengths)) fixed_dist-IsLength fixed_dist-IsKraft

-- The fixed code covers every token that can be said.
token-IsCovered : (t : Token) → IsToken t → IsCovered fixed_lit_lengths fixed_dist_lengths t
token-IsCovered t (inl (z, small)) =
    (λ e. fixed_lit_used t.literal (omega arith), λ h. absurd (h z))
token-IsCovered t (inr (lo, hi, d_lo, d_hi)) = (
  λ e. absurd (omega arith),
  λ h. (
    fixed_lit_used (257 + length_to_code t.length)
        (omega (arith, (length_to_code-IsCodeOf t.length lo hi).below)),
    fixed_dist_used (distance_to_code t.distance)
        (omega (arith, (distance_to_code-IsCodeOf t.distance d_lo d_hi).below)),
  ),
)

tokens-IsCovered :
    (ts : List Token) (out : List ℕ)
    → IsReachable out ts
    → All (IsCovered fixed_lit_lengths fixed_dist_lengths) ts
tokens-IsCovered [] out h = tt
tokens-IsCovered (t ∷ ts) out h = (token-IsCovered t h.0.0, tokens-IsCovered ts _ h.1)

fixed-IsReadAs :
    (s : Scratch) (cap : ℕ) (ts : List Token) (rest : List ℕ)
    → IsRoomy s
    → IsReachable [] ts
    → length (expand [] ts) ≤ cap
    → IsReadAs s cap 1 (stream_of fixed_codes ts ++ rest) [] (expand [] ts) rest
unfolding read_block fixed_codes codes_of
fixed-IsReadAs s cap ts rest room reach fits r o clear e =
    let covered = tokens-IsCovered ts [] reach in
    let enough : length ts < rounds r = omega (
      arith,
      length-stream_of fixed_codes ts covered,
      ap length e,
      length-append (stream_of fixed_codes ts) rest,
      length-pending r,
      o.0,
    ) in
    symbol_loop_reads fixed_lit_lengths fixed_dist_lengths (fixed_decoders s).0 (fixed_decoders s).1
      (fixed_lit-IsDecoderOf s room) (fixed_dist-IsDecoderOf s room)
      (omega (arith, length-fixed_lit_lengths)) (omega (arith, length-fixed_dist_lengths)) ts
      (rounds r) cap r [] rest o clear reach covered (fixed_lit_used 256 (omega arith)) fits enough
      e

fixed-IsShort : IsShort fixed_codes
unfolding fixed_codes codes_of
fixed-IsShort = (fixed_lit-IsLength, fixed_dist-IsLength)

pub starts_clear : (bytes : List ℕ) → (br_init bytes).underflow ≡ false
unfolding br_init
starts_clear bytes = refl

abbrev fixed_bits : List Token → List ℕ
fixed_bits ts = lsb 1 1 ++ (lsb 2 1 ++ stream_of fixed_codes ts)

emit_fixed-Appends :
    (w : BitWriter) (ts : List Token)
    → IsReady w
    → Fits w (3 + length (stream_of fixed_codes ts))
    → Appends w (emit_fixed w ts) (fixed_bits ts)
unfolding emit_fixed
emit_fixed-Appends w ts ready room =
    let n = length (stream_of fixed_codes ts) in
    let w1 = bw_bits w 1 1 in
    let w2 = bw_bits w1 1 2 in
    let one = bw_bits-Appends w 1 1 ready (omega arith) (omega arith) in
    let room1 = Fits-Appends w w1 (lsb 1 1) (2 + n) one (omega (arith, length-lsb 1 1)) in
    let two = bw_bits-Appends w1 1 2 one.ready (omega arith) (omega arith) in
    let room2 = Fits-Appends w1 w2 (lsb 2 1) n two (omega (arith, length-lsb 2 1)) in
    Appends-trans w w1 _ (lsb 1 1) _ one (
      Appends-trans w1 w2 _ (lsb 2 1) _ two
        (emit_tokens-Appends fixed_codes fixed-IsShort w2 ts two.ready room2))

-- Reachable tokens, written as one block in the fixed code into a buffer with room for its bits,
-- are decoded to what they expand to, with scratch decoders of full size.
pub emit_fixed-IsRestored :
    (s : Scratch) (cap : ℕ) (ts : List Token)
    → IsRoomy s
    → IsReachable [] ts
    → 3 + length (stream_of fixed_codes ts) ≤ 8 * cap
    → IsRestored s (expand [] ts) (some (finish (emit_fixed (bw_init cap) ts)))
unfolding deflate_decompress
emit_fixed-IsRestored s cap ts room reach fits =
    let input = expand [] ts in
    let w = emit_fixed (bw_init cap) ts in
    let bits = fixed_bits ts in
    let stream = stream_of fixed_codes ts in
    let size : length bits ≡ 3 + length stream = omega (
      arith,
      length-append (lsb 1 1) (lsb 2 1 ++ stream),
      length-append (lsb 2 1) stream,
      length-lsb 1 1,
      length-lsb 2 1,
    ) in
    let (ready, aligned) = bw_init-IsReady cap in
    let all =
      emit_fixed-Appends (bw_init cap) ts ready (bw_init-Fits cap (3 + length stream) fits) in
    let done = finish-IsFinished w bits cap all (omega arith) in
    let out = (bw_finish w).out in
    let pad = lsb ((8 - w.bit_count) % 8) 0 in
    let shape : pending (br_init out) ≡ lsb 1 1 ++ (lsb 2 1 ++ (stream ++ pad)) =
      done.stream
      ∙ append_assoc (lsb 1 1) (lsb 2 1 ++ stream) pad
      ∙ ap (λ (x : List ℕ). lsb 1 1 ++ x) (append_assoc (lsb 2 1) stream pad) in
    let round =
      block_loop_reads (length (pending (br_init out)) + 8) s (length input) 1 1 (br_init out)
        (stream ++ pad) [] input pad done.opened (starts_clear out) (omega arith) (omega arith)
        shape (fixed-IsReadAs s (length input) ts pad room reach (omega arith)) in
    record {
      bytes = out;
      returned = ap some done.returned;
      restored =
          ap (λ (f : ℕ). block_loop f s (length input) (br_init out) [])
            (omega (arith, rounds_start out))
          ∙ round.is_result;
    }
