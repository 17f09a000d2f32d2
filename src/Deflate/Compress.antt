-- ===== src/Deflate/Compress.antt =====
-- `deflate_compress` of C-Deflate/src/deflate.c: the three candidates, the choice, and the emission.
-- The outer `none` is to run out of the fuel of the Huffman trees.
pub mod Bounded
pub mod Outcome
use foundations_lab.Base.{
  ℕ, zero, suc, ◌+◌, ◌-◌, ◌*◌, Bool, true, List, [], ◌∷◌, ◌++◌, Option, none, some, length, get_or,
  set, take, ltb, leb, ◌==◌, ◌&&◌, ◌>>=◌, if◌then◌else◌, map,
}
use foundations_lab.Deflate.Bits.{BitWriter, bw_init, bw_bits, bw_code, bw_finish}
use foundations_lab.Deflate.Tables.{
  num_literals, num_distances, num_codelen, codelen_order, max_code_bits,
}
use foundations_lab.Deflate.Status.{Result, ok, err, output, memory}
use foundations_lab.Deflate.Huffman.{zeros, huff_assign_codes}
use foundations_lab.Deflate.Window.{Token}
use foundations_lab.Deflate.Lz77.{Slots, lz77_parse}
use foundations_lab.Deflate.Fixed.{fixed_lit_lengths, fixed_dist_lengths}
use foundations_lab.Deflate.Emit.{
  Codes, count_symbols, token_bits, emit_tokens, emit_stored, emit_chunks, bump32,
}
use foundations_lab.Deflate.Pack.{pack_code_lengths}
use foundations_lab.Deflate.Tree.{huff_build_lengths}

-- Whether `malloc` gives the tokens, and the two arrays of the parse; what the second holds at first.
pub record Heap : Type 0 where
  pub tokens : Bool
  pub chains : Bool
  pub prev : Slots

-- `bw_finish`, then `w.overflow ? DF_ERR_OUTPUT : written`; the bytes in place of their number.
unfoldable pub finish : BitWriter → Result (List ℕ)
finish w = let w' = bw_finish w in if w'.overflow then err output else ok w'.out

unfoldable pub codes_of : List ℕ → List ℕ → Codes
codes_of lit_len dist_len = record {
  lit_len = lit_len;
  lit_code = huff_assign_codes lit_len;
  dist_len = dist_len;
  dist_code = huff_assign_codes dist_len;
}

unfoldable pub fixed_codes : Codes
unfolding codes_of
fixed_codes = codes_of fixed_lit_lengths fixed_dist_lengths

-- `if (!any_dist) dyn_dist_len[0] = 1;`
unfoldable pub some_dist : List ℕ → List ℕ
some_dist dist_len = if is_empty dist_len then set dist_len 0 1 else dist_len
  where
    is_empty : List ℕ → Bool
    is_empty [] = true
    is_empty (l ∷ ls) = (l == 0) && is_empty ls

-- `while (n > low && lengths[n - 1] == 0) n--;`
unfoldable pub trim : ℕ → List ℕ → ℕ → ℕ
trim low lengths zero = zero
trim low lengths (suc n) =
    let rest = trim low lengths n in
    if ltb low (suc n) && (get_or lengths n 0 == 0) then rest else suc n

unfoldable pub count_codelens : List (ℕ × ℕ) → List ℕ → List ℕ
count_codelens [] freq = freq
count_codelens ((sym, _) ∷ rest) freq = count_codelens rest (bump32 freq sym)

-- The width of the extra field of a code-length symbol.
unfoldable pub extra_width : ℕ → ℕ
extra_width sym = if sym == 16 then 2 else if sym == 17 then 3 else if sym == 18 then 7 else 0

-- The variables of the dynamic candidate.
pub record Dynamic : Type 0 where
  pub codes : Codes
  pub hlit : ℕ
  pub hdist : ℕ
  pub packed : List (ℕ × ℕ)
  pub cl_len : List ℕ
  pub cl_code : List ℕ
  pub hclen : ℕ

-- The lengths of the code-length code, by its frequencies, complete the candidate.
unfoldable pub with_codelens : Codes → ℕ → ℕ → List (ℕ × ℕ) → List ℕ → Dynamic
unfolding trim
with_codelens codes hlit hdist packed cl_len = record {
  codes = codes;
  hlit = hlit;
  hdist = hdist;
  packed = packed;
  cl_len = cl_len;
  cl_code = huff_assign_codes cl_len;
  hclen = trim 4 (map (λ i. get_or cl_len i 0) codelen_order) num_codelen;
}

unfoldable pub pack_dynamic : List ℕ → List ℕ → Option Dynamic
unfolding trim count_codelens with_codelens codes_of
pack_dynamic lit_len dist_len =
    let hlit = trim 257 lit_len num_literals in
    let hdist = trim 1 dist_len num_distances in
    let packed = pack_code_lengths (take hlit lit_len ++ take hdist dist_len) in
    let freq = count_codelens packed (zeros num_codelen) in
    do
      cl_len ← huff_build_lengths freq 7
      some (with_codelens (codes_of lit_len dist_len) hlit hdist packed cl_len)

unfoldable pub plan_dynamic : List Token → Option Dynamic
unfolding pack_dynamic some_dist
plan_dynamic tokens =
    let (lit_freq, dist_freq) = count_symbols tokens in
    do
      lit_len ← huff_build_lengths lit_freq max_code_bits
      dist_len ← huff_build_lengths dist_freq max_code_bits
      pack_dynamic lit_len (some_dist dist_len)

-- `header_bits`, without its first terms.
unfoldable pub packed_bits : List ℕ → List (ℕ × ℕ) → ℕ
unfolding extra_width
packed_bits cl_len [] = 0
packed_bits cl_len ((sym, _) ∷ rest) =
    get_or cl_len sym 0 + extra_width sym + packed_bits cl_len rest

unfoldable pub dynamic_bits : List Token → Dynamic → ℕ
unfolding packed_bits
dynamic_bits tokens d =
    3
    + 5
    + 5
    + 4
    + d.hclen * 3
    + packed_bits d.cl_len d.packed
    + token_bits tokens d.codes.lit_len d.codes.dist_len

-- `for (i < hclen) bw_bits(&w, cl_len[CODELEN_ORDER[i]], 3);` from `i` on.
unfoldable pub emit_codelens : ℕ → ℕ → List ℕ → BitWriter → BitWriter
emit_codelens zero i cl_len w = w
emit_codelens (suc left) i cl_len w =
    emit_codelens left (i + 1) cl_len (bw_bits w (get_or cl_len (get_or codelen_order i 0) 0) 3)

-- The loop over `cl_syms`.
unfoldable pub emit_packed : Dynamic → List (ℕ × ℕ) → BitWriter → BitWriter
unfolding extra_width
emit_packed d [] w = w
emit_packed d ((sym, extra) ∷ rest) w =
    let w1 = bw_code w (get_or d.cl_code sym 0) (get_or d.cl_len sym 0) in
    let width = extra_width sym in
    emit_packed d rest (if width == 0 then w1 else bw_bits w1 extra width)

unfoldable pub emit_dynamic : BitWriter → List Token → Dynamic → BitWriter
unfolding emit_codelens emit_packed
emit_dynamic w tokens d =
    let w1 = bw_bits (bw_bits w 1 1) 2 2 in
    let w2 = bw_bits (bw_bits (bw_bits w1 (d.hlit - 257) 5) (d.hdist - 1) 5) (d.hclen - 4) 4 in
    emit_tokens d.codes (emit_packed d d.packed (emit_codelens d.hclen 0 d.cl_len w2)) tokens

unfoldable pub emit_fixed : BitWriter → List Token → BitWriter
unfolding fixed_codes
emit_fixed w tokens = emit_tokens fixed_codes (bw_bits (bw_bits w 1 1) 1 2) tokens

-- The choice between the three candidates.
unfoldable pub emit_smallest : BitWriter → List ℕ → List Token → Dynamic → BitWriter
emit_smallest w input tokens d =
    let fixed_bits = 3 + token_bits tokens fixed_lit_lengths fixed_dist_lengths in
    let stored_bits = 3 + 32 + length input * 8 in
    if leb stored_bits fixed_bits && leb stored_bits (dynamic_bits tokens d)
    then emit_chunks (length input) w input
    else if leb fixed_bits (dynamic_bits tokens d)
    then emit_fixed w tokens
    else emit_dynamic w tokens d

-- The part behind the parse.
unfoldable pub compress_tokens : BitWriter → List ℕ → List Token → Option (Result (List ℕ))
compress_tokens w input tokens = do
  d ← plan_dynamic tokens
  some (finish (emit_smallest w input tokens d))

unfoldable pub compress_parsed : Heap → BitWriter → List ℕ → ℕ → Option (Result (List ℕ))
compress_parsed m w input level =
    if m.tokens
    then elim (lz77_parse input level m.chains m.prev) [
      | none ↦ some (err memory)
      | some tokens ↦ compress_tokens w input tokens
    ]
    else some (err memory)

-- `level` is not negative here; DF_LEVEL_DEFAULT is 6 and DF_LEVEL_STORE is 0.
unfoldable pub deflate_compress : Heap → List ℕ → ℕ → ℕ → Option (Result (List ℕ))
deflate_compress m input cap level =
    let level' = if ltb 9 level then 6 else level in
    let w = bw_init cap in
    if length input == 0
    then some (finish (emit_stored w [] true))
    else if level' == 0
    then some (finish (emit_chunks (length input) w input))
    else compress_parsed m w input level'
