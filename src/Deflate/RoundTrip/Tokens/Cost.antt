-- ===== src/Deflate/RoundTrip/Tokens/Cost.antt =====
-- `token_bits` of C-Deflate/src/deflate.c against the bits that `emit_tokens` writes.
use foundations_lab.Base.{
  ℕ, ◌+◌, ◌≤◌, ◌≡◌, arith, List, [], ◌∷◌, ◌++◌, length, length-append, get_or, All, ◌-◌, ◌==◌,
  ==→eq, ==→ne, Bool-cases, inl, inr,
}
use foundations_lab.Deflate.Stream.{lsb, length-lsb, length-msb}
use foundations_lab.Deflate.Tables.{
  length_base, length_extra, dist_base, dist_extra, length_to_code, distance_to_code,
}
use foundations_lab.Deflate.Window.{Token}
use foundations_lab.Deflate.Emit.{Codes, token_cost, token_bits}
use foundations_lab.Deflate.RoundTrip.Tokens.{
  lit_bits, dist_bits, match_bits, token_stream, stream_of,
}
use foundations_lab.Deflate.RoundTrip.Tokens.Read.{IsCovered}

module _ (c : Codes) where
  length-match_bits :
      (t : Token) (lc dc : ℕ)
      → length (match_bits c t lc dc)
        ≡ get_or c.lit_len (257 + lc) 0
          + get_or length_extra lc 0
          + (get_or c.dist_len dc 0 + get_or dist_extra dc 0)
  length-match_bits t lc dc =
      let n = get_or length_extra lc 0 in
      let m = get_or dist_extra dc 0 in
      let len = lsb n (t.length - get_or length_base lc 0) in
      let far = lsb m (t.distance - get_or dist_base dc 0) in
      omega (
        arith,
        length-append (lit_bits c (257 + lc)) (len ++ (dist_bits c dc ++ far)),
        length-append len (dist_bits c dc ++ far),
        length-append (dist_bits c dc) far,
        length-lsb n (t.length - get_or length_base lc 0),
        length-lsb m (t.distance - get_or dist_base dc 0),
        length-msb (get_or c.lit_len (257 + lc) 0) (get_or c.lit_code (257 + lc) 0),
        length-msb (get_or c.dist_len dc 0) (get_or c.dist_code dc 0),
      )

  length-token_stream : (t : Token) → length (token_stream c t) ≡ token_cost c.lit_len c.dist_len t
  unfolding token_stream token_cost
  length-token_stream t = elim (Bool-cases (t.length == 0)) [
    | inl literal ↦
        simp literal (length-msb (get_or c.lit_len t.literal 0) (get_or c.lit_code t.literal 0))
    | inr is_match ↦
        simp is_match (length-match_bits t (length_to_code t.length) (distance_to_code t.distance))
  ]

  -- `token_bits` is the number of bits of the tokens and the end of the block, with the codes of
  -- whatever lengths.
  pub token_bits_lem :
      (ts : List Token) → length (stream_of c ts) ≡ token_bits ts c.lit_len c.dist_len
  unfolding stream_of token_bits
  token_bits_lem [] = length-msb (get_or c.lit_len 256 0) (get_or c.lit_code 256 0)
  token_bits_lem (t ∷ ts) = omega (
    arith,
    length-append (token_stream c t) (stream_of c ts),
    length-token_stream t,
    token_bits_lem ts,
  )

  token_pos : (t : Token) → IsCovered c.lit_len c.dist_len t → 1 ≤ token_cost c.lit_len c.dist_len t
  unfolding token_cost
  token_pos t covered = elim (Bool-cases (t.length == 0)) [
    | inl literal ↦
        let used_here = covered.0 (==→eq t.length 0 literal) in
        simp literal (omega (arith, used_here))
    | inr is_match ↦
        let used_here = (covered.1 (==→ne t.length 0 is_match)).0 in
        simp is_match (omega (arith, used_here))
  ]

  -- Every token takes a bit, if its symbols have codes.
  pub length-stream_of :
      (ts : List Token)
      → All (IsCovered c.lit_len c.dist_len) ts
      → length ts ≤ length (stream_of c ts)
  unfolding stream_of
  length-stream_of [] covered = omega arith
  length-stream_of (t ∷ ts) covered = omega (
    arith,
    length-append (token_stream c t) (stream_of c ts),
    length-token_stream t,
    token_pos t covered.0,
    length-stream_of ts covered.1,
  )
