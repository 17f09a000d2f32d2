-- ===== src/Deflate/RoundTrip/Tokens/Read.antt =====
-- The loop over symbols of C-Deflate/src/inflate.c on the bits of tokens, by decoders of the same
-- code lengths.
use foundations_lab.Base.{
  ℕ, zero, suc, ◌+◌, ◌-◌, ◌^◌, ◌≤◌, ◌<◌, ◌≡◌, ◌≢◌, refl, ap, ◌∙◌, arith, false, List, [], ◌∷◌, ◌++◌,
  append_assoc, some, All, length, length-append, get_or, ◌==◌, ==→eq, ==→ne, Bool-cases, inl, inr,
}
use foundations_lab.Deflate.Stream.{lsb}
use foundations_lab.Deflate.Bits.{BitReader, br_bits}
use foundations_lab.Deflate.Bits.Reader.{pending, IsOpen}
use foundations_lab.Deflate.Bits.Fields.{br_bits_reads}
use foundations_lab.Deflate.Tables.{
  length_base, length_extra, dist_base, dist_extra, length_to_code, distance_to_code,
}
use foundations_lab.Deflate.Tables.Search.{
  IsCodeOf, length_to_code-IsCodeOf, distance_to_code-IsCodeOf, length_extra_small,
  dist_extra_small,
}
use foundations_lab.Deflate.Status.{ok}
use foundations_lab.Deflate.Huffman.{HuffDec, huff_decode}
use foundations_lab.Deflate.Huffman.Decode.{IsDecoderOf, Decodes, IsDecoderOf-Decodes}
use foundations_lab.Deflate.Window.{Token, IsToken, IsReachable, copy_match, expand_token, expand}
use foundations_lab.Deflate.Window.Copy.{length-copy_match, length-expand}
use foundations_lab.Deflate.Inflate.{
  Block, Step, more, block_end, match_distance, symbol_step, symbol_loop,
}
use foundations_lab.Deflate.Compress.{codes_of}
use foundations_lab.Deflate.RoundTrip.Blocks.{EndsAt}
use foundations_lab.Deflate.RoundTrip.Tokens.Steps.{
  literal_step, length_step, extra_step, distance_step, end_step,
}
use foundations_lab.Deflate.RoundTrip.Tokens.{
  lit_bits, dist_bits, match_bits, token_stream, stream_of,
}

-- The length and distance symbols of a match have codes.
abbrev pub IsCovered : List ℕ → List ℕ → Token → Type 0
IsCovered ls ds t =
    (t.length ≡ 0 → get_or ls t.literal 0 ≢ 0)
    × (t.length ≢ 0
        → (get_or ls (257 + length_to_code t.length) 0 ≢ 0)
          × (get_or ds (distance_to_code t.distance) 0 ≢ 0))

in_range : (xs : List ℕ) (i : ℕ) → get_or xs i 0 ≢ 0 → i < length xs
in_range [] i h = absurd (h refl)
in_range (x ∷ xs) zero h = omega arith
in_range (x ∷ xs) (suc i) h = omega (arith, in_range xs i h)

-- A round that leads to another one, with `rest` left.
record Leads (step : Step) (out rest : List ℕ) : Type 0 where
  reader : BitReader
  is_more : step ≡ more reader out
  left : pending reader ≡ rest
  opened : IsOpen reader
  lasts : reader.underflow ≡ false

module _ (ls ds : List ℕ) (lit dist : HuffDec) (lit_dec : IsDecoderOf ls lit)
    (dist_dec : IsDecoderOf ds dist) (lit_short : length ls < 2 ^ 15)
    (dist_short : length ds < 2 ^ 15) where
  lit_reads :
      (r : BitReader) (s : ℕ) (rest : List ℕ)
      → get_or ls s 0 ≢ 0
      → IsOpen r
      → pending r ≡ lit_bits (codes_of ls ds) s ++ rest
      → Decodes r s rest (huff_decode lit r)
  unfolding codes_of
  lit_reads r s rest in_use o e =
      IsDecoderOf-Decodes ls s (get_or ls s 0) lit r rest lit_short lit_dec (in_range ls s in_use)
        refl in_use o e

  dist_reads :
      (r : BitReader) (s : ℕ) (rest : List ℕ)
      → get_or ds s 0 ≢ 0
      → IsOpen r
      → pending r ≡ dist_bits (codes_of ls ds) s ++ rest
      → Decodes r s rest (huff_decode dist r)
  unfolding codes_of
  dist_reads r s rest in_use o e =
      IsDecoderOf-Decodes ds s (get_or ds s 0) dist r rest dist_short dist_dec
        (in_range ds s in_use) refl in_use o e

  literal_reads :
      (cap : ℕ) (r : BitReader) (out rest : List ℕ) (s : ℕ)
      → IsOpen r
      → r.underflow ≡ false
      → s < 256
      → get_or ls s 0 ≢ 0
      → length out < cap
      → pending r ≡ lit_bits (codes_of ls ds) s ++ rest
      → Leads (symbol_step lit dist cap r out) (out ++ (s ∷ [])) rest
  literal_reads cap r out rest s o clear small in_use room e =
      let d = lit_reads r s rest in_use o e in
      let clear' = d.same_flag ∙ clear in
      record {
        reader = (huff_decode lit r).1;
        is_more = literal_step dist cap out lit r s d.symbol_is clear' small room;
        left = d.left;
        opened = d.opened;
        lasts = clear';
      }

  match_reads :
      (cap : ℕ) (r : BitReader) (out rest : List ℕ) (t : Token) (lc dc : ℕ)
      → IsOpen r
      → r.underflow ≡ false
      → IsCodeOf length_base length_extra 29 t.length lc
      → IsCodeOf dist_base dist_extra 30 t.distance dc
      → get_or ls (257 + lc) 0 ≢ 0
      → get_or ds dc 0 ≢ 0
      → t.distance ≤ length out
      → length out + t.length ≤ cap
      → pending r ≡ match_bits (codes_of ls ds) t lc dc ++ rest
      → Leads
          (symbol_step lit dist cap r out)
          (copy_match t.length (length out - t.distance) out)
          rest
  match_reads cap r out rest t lc dc o clear of_length of_dist lit_use dist_use near room e =
      let c = codes_of ls ds in
      let n = get_or length_extra lc 0 in
      let m = get_or dist_extra dc 0 in
      let v = t.length - get_or length_base lc 0 in
      let u = t.distance - get_or dist_base dc 0 in
      let far = lsb m u ++ rest in
      let behind = lsb n v ++ (dist_bits c dc ++ lsb m u) in
      let d1 =
        lit_reads r (257 + lc) (behind ++ rest) lit_use o
          (e ∙ append_assoc (lit_bits c (257 + lc)) behind rest) in
      let r1 = (huff_decode lit r).1 in
      let d2 =
        br_bits_reads r1 n v (dist_bits c dc ++ far) d1.opened (length_extra_small lc)
          of_length.fits
          (d1.left
            ∙ append_assoc (lsb n v) (dist_bits c dc ++ lsb m u) rest
            ∙ ap (λ (x : List ℕ). lsb n v ++ x) (append_assoc (dist_bits c dc) (lsb m u) rest)) in
      let r2 = (br_bits r1 n).1 in
      let d3 = dist_reads r2 dc far dist_use d2.opened d2.left in
      let r3 = (huff_decode dist r2).1 in
      let d4 = br_bits_reads r3 m u rest d3.opened (dist_extra_small dc) of_dist.fits d3.left in
      let whole : get_or length_base lc 0 + v ≡ t.length = omega (arith, of_length.reached) in
      record {
        reader = (br_bits r3 m).1;
        is_more =
            length_step dist cap out lit r lc d1.symbol_is (d1.same_flag ∙ clear)
            ∙ extra_step dist cap out r1 lc v of_length.below d2.value
            ∙ ap (match_distance dist cap r2 out) whole
            ∙ distance_step dist cap out r2 t.length dc u t.distance d3.symbol_is of_dist.below
                d4.value (omega (arith, of_dist.reached)) near room;
        left = d4.left;
        opened = d4.opened;
        lasts = d4.same_flag ∙ d3.same_flag ∙ d2.same_flag ∙ d1.same_flag ∙ clear;
      }

  -- What a token adds to the output, in bytes.
  token_reads :
      (cap : ℕ) (r : BitReader) (out rest : List ℕ) (t : Token)
      → IsOpen r
      → r.underflow ≡ false
      → IsToken t
      → IsCovered ls ds t
      → t.distance ≤ length out
      → length (expand_token out t) ≤ cap
      → pending r ≡ token_stream (codes_of ls ds) t ++ rest
      → Leads (symbol_step lit dist cap r out) (expand_token out t) rest
  unfolding expand_token token_stream
  token_reads cap r out rest t o clear legal covered near room e =
      elim (Bool-cases (t.length == 0)) [
        | inl literal ↦
            let zeroth = ==→eq t.length 0 literal in
            let byte = in_literal legal zeroth in
            simp literal (
              literal_reads cap r out rest t.literal o clear byte (covered.0 zeroth)
                (omega (arith, simp literal at room, length-append out (t.literal ∷ [])))
                (simp literal at e))
        | inr is_match ↦
            let some_bytes = ==→ne t.length 0 is_match in
            let (lo, hi, d_lo, d_hi) = in_match legal some_bytes in
            let (lit_use, dist_use) = covered.1 some_bytes in
            simp is_match (
              match_reads cap r out rest t (length_to_code t.length) (distance_to_code t.distance) o
                clear (length_to_code-IsCodeOf t.length lo hi)
                (distance_to_code-IsCodeOf t.distance d_lo d_hi) lit_use dist_use near
                (omega (
                  arith,
                  simp is_match at room,
                  length-copy_match t.length (length out - t.distance) out,
                ))
                (simp is_match at e))
      ]
    where
      in_literal : IsToken t → t.length ≡ 0 → t.literal < 256
      in_literal (inl (_, b)) h = b
      in_literal (inr m) h = absurd (omega (arith, m.0))

      in_match :
          IsToken t
          → t.length ≢ 0
          → (3 ≤ t.length) × (t.length ≤ 258) × (1 ≤ t.distance) × (t.distance ≤ 32768)
      in_match (inl (z, _)) h = absurd (h z)
      in_match (inr m) h = m

  end_reads :
      (cap : ℕ) (r : BitReader) (out rest : List ℕ)
      → IsOpen r
      → r.underflow ≡ false
      → get_or ls 256 0 ≢ 0
      → pending r ≡ lit_bits (codes_of ls ds) 256 ++ rest
      → (b : Block) × (symbol_step lit dist cap r out ≡ block_end b) × EndsAt b out rest
  end_reads cap r out rest o clear in_use e =
      let d = lit_reads r 256 rest in_use o e in
      let clear' = d.same_flag ∙ clear in
      (
        ok ((huff_decode lit r).1, out),
        end_step dist cap out lit r d.symbol_is clear',
        record {
          reader = (huff_decode lit r).1;
          returned = refl;
          left = d.left;
          opened = d.opened;
          lasts = clear';
        },
      )

  -- With decoders of any code lengths, fewer than 2 ^ 15 of them, on the bits of reachable tokens
  -- whose symbols have codes and of the end of the block, with room in the buffer and a round for
  -- each token and one more, the loop over symbols ends with the output that the tokens expand to.
  pub symbol_loop_reads :
      (ts : List Token) (fuel cap : ℕ) (r : BitReader) (out rest : List ℕ)
      → IsOpen r
      → r.underflow ≡ false
      → IsReachable out ts
      → All (IsCovered ls ds) ts
      → get_or ls 256 0 ≢ 0
      → length (expand out ts) ≤ cap
      → length ts < fuel
      → pending r ≡ stream_of (codes_of ls ds) ts ++ rest
      → (b : Block) × (symbol_loop fuel lit dist cap r out ≡ some b) × EndsAt b (expand out ts) rest
  unfolding symbol_loop stream_of expand
  symbol_loop_reads ts zero cap r out rest o clear reach covered ends room enough e =
      absurd (omega arith)
  symbol_loop_reads [] (suc fuel) cap r out rest o clear reach covered ends room enough e =
      let (b, is_end, at) = end_reads cap r out rest o clear ends e in
      rw (is_end, symbol_loop) (b, refl, at)
  symbol_loop_reads (t ∷ ts) (suc fuel) cap r out rest o clear reach covered ends room enough e =
      let c = codes_of ls ds in
      let one =
        token_reads cap r out (stream_of c ts ++ rest) t o clear reach.0.0 covered.0 reach.0.1
          (omega (arith, length-expand ts (expand_token out t)))
          (e ∙ append_assoc (token_stream c t) (stream_of c ts) rest) in
      rw (one.is_more, symbol_loop)
        (symbol_loop_reads ts fuel cap one.reader (expand_token out t) rest one.opened one.lasts
          reach.1 covered.1 ends room (omega arith) one.left)
