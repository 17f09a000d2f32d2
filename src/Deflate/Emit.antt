-- ===== src/Deflate/Emit.antt =====
-- The parts of C-Deflate/src/deflate.c behind the parse: symbol frequencies, costs, and the emission
-- of stored blocks and of tokens. An array with its number of entries is a list.
use foundations_lab.Base.{
  ℕ, zero, suc, ◌+◌, ◌-◌, ◌*◌, ◌/◌, ◌^◌, bit_and, Bool, List, [], ◌∷◌, length, get_or, set, take,
  drop, ltb, leb, ◌==◌, if◌then◌else◌,
}
use foundations_lab.Deflate.Bits.{u32, BitWriter, bw_bits, bw_code, bw_align}
use foundations_lab.Deflate.Tables.{
  num_literals, num_distances, end_of_block, length_base, length_extra, dist_base, dist_extra,
  length_to_code, distance_to_code,
}
use foundations_lab.Deflate.Huffman.{zeros}
use foundations_lab.Deflate.Window.{Token}

-- `a[i]++` on an array of `uint32_t`.
unfoldable pub bump32 : List ℕ → ℕ → List ℕ
bump32 a i = set a i (u32 (get_or a i 0 + 1))

-- The loop of `count_symbols`.
unfoldable pub count_loop : List Token → List ℕ → List ℕ → List ℕ × List ℕ
unfolding bump32
count_loop [] lit_freq dist_freq = (lit_freq, dist_freq)
count_loop (t ∷ ts) lit_freq dist_freq =
    if t.length == 0
    then count_loop ts (bump32 lit_freq t.literal) dist_freq
    else count_loop ts (bump32 lit_freq (257 + length_to_code t.length))
        (bump32 dist_freq (distance_to_code t.distance))

unfoldable pub count_symbols : List Token → List ℕ × List ℕ
count_symbols tokens =
    let (lit_freq, dist_freq) = count_loop tokens (zeros num_literals) (zeros num_distances) in
    (bump32 lit_freq end_of_block, dist_freq)

-- What one token adds in the loop of `token_bits`.
unfoldable pub token_cost : List ℕ → List ℕ → Token → ℕ
token_cost lit_len dist_len t =
    let lc = length_to_code t.length in
    let dc = distance_to_code t.distance in
    if t.length == 0
    then get_or lit_len t.literal 0
    else get_or lit_len (257 + lc) 0
      + get_or length_extra lc 0
      + (get_or dist_len dc 0 + get_or dist_extra dc 0)

unfoldable pub token_bits : List Token → List ℕ → List ℕ → ℕ
unfolding token_cost
token_bits [] lit_len dist_len = get_or lit_len end_of_block 0
token_bits (t ∷ ts) lit_len dist_len =
    token_cost lit_len dist_len t + token_bits ts lit_len dist_len

-- The four arrays that `emit_tokens` is given.
pub record Codes : Type 0 where
  pub lit_len : List ℕ
  pub lit_code : List ℕ
  pub dist_len : List ℕ
  pub dist_code : List ℕ

-- `if (extra[code]) bw_bits(w, value - base[code], extra[code]);` the base is at most the value.
unfoldable pub emit_extra : BitWriter → ℕ → ℕ → ℕ → BitWriter
emit_extra w value base extra = if extra == 0 then w else bw_bits w (value - base) extra

-- The body of the loop of `emit_tokens`.
unfoldable pub emit_token : Codes → BitWriter → Token → BitWriter
unfolding emit_extra
emit_token c w t =
    let lc = length_to_code t.length in
    let dc = distance_to_code t.distance in
    let w1 = bw_code w (get_or c.lit_code (257 + lc) 0) (get_or c.lit_len (257 + lc) 0) in
    let w2 = emit_extra w1 t.length (get_or length_base lc 0) (get_or length_extra lc 0) in
    let w3 = bw_code w2 (get_or c.dist_code dc 0) (get_or c.dist_len dc 0) in
    if t.length == 0
    then bw_code w (get_or c.lit_code t.literal 0) (get_or c.lit_len t.literal 0)
    else emit_extra w3 t.distance (get_or dist_base dc 0) (get_or dist_extra dc 0)

unfoldable pub emit_tokens : Codes → BitWriter → List Token → BitWriter
unfolding emit_token
emit_tokens c w [] = bw_code w (get_or c.lit_code end_of_block 0) (get_or c.lit_len end_of_block 0)
emit_tokens c w (t ∷ ts) = emit_tokens c (emit_token c w t) ts

-- `for (i < len) bw_bits(w, in[i], 8);`
unfoldable pub emit_bytes : BitWriter → List ℕ → BitWriter
emit_bytes w [] = w
emit_bytes w (b ∷ bs) = emit_bytes (bw_bits w b 8) bs

-- `in` and `len` are one list; `~len` is that of a `size_t`.
unfoldable pub emit_stored : BitWriter → List ℕ → Bool → BitWriter
emit_stored w bytes final =
    let w1 = bw_align (bw_bits (bw_bits w (if final then 1 else 0) 1) 0 2) in
    let w2 = bw_bits w1 (bit_and (length bytes) 0xffff) 16 in
    let w3 = bw_bits w2 (bit_and (2 ^ 64 - 1 - length bytes) 0xffff) 16 in emit_bytes w3 bytes

-- `in_len - pos > 65535 ? 65535 : in_len - pos`
abbrev pub chunk_of : ℕ → ℕ
chunk_of left = if ltb 65535 left then 65535 else left

-- The loop `while (pos < in_len)` over stored blocks, with `left` the bytes from `pos` on. A round
-- takes one byte at least, so `in_len` rounds do.
unfoldable pub emit_chunks : ℕ → BitWriter → List ℕ → BitWriter
emit_chunks zero w left = w
emit_chunks (suc fuel) w left =
    let chunk = chunk_of (length left) in
    let rest =
      emit_chunks fuel (emit_stored w (take chunk left) (leb (length left) chunk))
        (drop chunk left) in
    if ltb 0 (length left) then rest else w

unfoldable pub deflate_bound : ℕ → ℕ
deflate_bound len = len + (len / 65535 + 1) * 5 + 8
