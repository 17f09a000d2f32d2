-- ===== src/Deflate/RoundTrip/Tokens.antt =====
-- `emit_tokens` of C-Deflate/src/deflate.c: the bits of a token and of a sequence of them, and that
-- the writer appends these.
pub mod Steps
pub mod Read
pub mod Cost
use foundations_lab.Base.{
  ℕ, zero, suc, ◌+◌, ◌-◌, ◌*◌, ◌≤◌, ◌<◌, ◌≡◌, ◌≢◌, refl, sym, ap, ◌∙◌, arith, true, false, List, [],
  ◌∷◌, ◌++◌, length, length-append, get_or, All, ◌==◌, if◌then◌else◌, ==→eq, Bool-cases, inl, inr,
}
use foundations_lab.Deflate.Stream.{lsb, msb, length-lsb, length-msb}
use foundations_lab.Deflate.Bits.{BitWriter, bw_bits, bw_code}
use foundations_lab.Deflate.Bits.Writer.{IsReady}
use foundations_lab.Deflate.Bits.Appends.{
  Appends, Appends-start, Appends-trans, Fits, Fits-Appends, bw_bits-Appends, bw_code-Appends,
}
use foundations_lab.Deflate.Tables.{
  length_base, length_extra, dist_base, dist_extra, length_to_code, distance_to_code,
}
use foundations_lab.Deflate.Tables.Search.{length_extra_small, dist_extra_small}
use foundations_lab.Deflate.Huffman.Count.{IsLength, IsLength-at}
use foundations_lab.Deflate.Window.{Token}
use foundations_lab.Deflate.Emit.{Codes, emit_extra, emit_token, emit_tokens}

abbrev pub lit_bits : Codes → ℕ → List ℕ
lit_bits c s = msb (get_or c.lit_len s 0) (get_or c.lit_code s 0)

abbrev pub dist_bits : Codes → ℕ → List ℕ
dist_bits c s = msb (get_or c.dist_len s 0) (get_or c.dist_code s 0)

-- The bits of a match, with the codes of its length and its distance.
abbrev pub match_bits : Codes → Token → ℕ → ℕ → List ℕ
match_bits c t lc dc =
    lit_bits c (257 + lc)
    ++ (lsb (get_or length_extra lc 0) (t.length - get_or length_base lc 0)
        ++ (dist_bits c dc ++ lsb (get_or dist_extra dc 0) (t.distance - get_or dist_base dc 0)))

unfoldable pub token_stream : Codes → Token → List ℕ
token_stream c t =
    if t.length == 0
    then lit_bits c t.literal
    else match_bits c t (length_to_code t.length) (distance_to_code t.distance)

unfoldable pub stream_of : Codes → List Token → List ℕ
stream_of c [] = lit_bits c 256
stream_of c (t ∷ ts) = token_stream c t ++ stream_of c ts

-- The code lengths fit the writer.
abbrev pub IsShort : Codes → Type 0
IsShort c = All IsLength c.lit_len × All IsLength c.dist_len

emit_extra-Appends :
    (w : BitWriter) (value base extra : ℕ)
    → IsReady w
    → extra ≤ 24
    → Fits w extra
    → Appends w (emit_extra w value base extra) (lsb extra (value - base))
unfolding emit_extra lsb
emit_extra-Appends w value base extra ready small room = elim (Bool-cases (extra == 0)) [
  | inl empty ↦ rw (==→eq extra 0 empty) (Appends-start w ready)
  | inr some_bits ↦ rw some_bits (bw_bits-Appends w (value - base) extra ready small room)
]

module _ (c : Codes) (short : IsShort c) where
  lit-Appends :
      (w : BitWriter) (s : ℕ)
      → IsReady w
      → Fits w (length (lit_bits c s))
      → Appends w (bw_code w (get_or c.lit_code s 0) (get_or c.lit_len s 0)) (lit_bits c s)
  lit-Appends w s ready room =
      let n = get_or c.lit_len s 0 in
      bw_code-Appends w (get_or c.lit_code s 0) n ready
        (omega (arith, IsLength-at c.lit_len s short.0))
        (omega (arith, length-msb n (get_or c.lit_code s 0)))

  dist-Appends :
      (w : BitWriter) (s : ℕ)
      → IsReady w
      → Fits w (length (dist_bits c s))
      → Appends w (bw_code w (get_or c.dist_code s 0) (get_or c.dist_len s 0)) (dist_bits c s)
  dist-Appends w s ready room =
      let n = get_or c.dist_len s 0 in
      bw_code-Appends w (get_or c.dist_code s 0) n ready
        (omega (arith, IsLength-at c.dist_len s short.1))
        (omega (arith, length-msb n (get_or c.dist_code s 0)))

  -- The four fields of a match.
  match-Appends :
      (w : BitWriter) (t : Token) (lc dc : ℕ)
      → IsReady w
      → Fits w (length (match_bits c t lc dc))
      → Appends w
          (emit_extra
            (bw_code
              (emit_extra
                (bw_code w (get_or c.lit_code (257 + lc) 0) (get_or c.lit_len (257 + lc) 0))
                t.length
                (get_or length_base lc 0)
                (get_or length_extra lc 0))
              (get_or c.dist_code dc 0)
              (get_or c.dist_len dc 0))
            t.distance
            (get_or dist_base dc 0)
            (get_or dist_extra dc 0))
          (match_bits c t lc dc)
  match-Appends w t lc dc ready room =
      let n = get_or length_extra lc 0 in
      let m = get_or dist_extra dc 0 in
      let lit = lit_bits c (257 + lc) in
      let len = lsb n (t.length - get_or length_base lc 0) in
      let dist = dist_bits c dc in
      let far = lsb m (t.distance - get_or dist_base dc 0) in
      let n_bits = length-lsb n (t.length - get_or length_base lc 0) in
      let m_bits = length-lsb m (t.distance - get_or dist_base dc 0) in
      let total : length (match_bits c t lc dc) ≡ length lit + (n + (length dist + m)) = omega (
        arith,
        length-append lit (len ++ (dist ++ far)),
        length-append len (dist ++ far),
        length-append dist far,
        n_bits,
        m_bits,
      ) in
      let w1 = bw_code w (get_or c.lit_code (257 + lc) 0) (get_or c.lit_len (257 + lc) 0) in
      let w2 = emit_extra w1 t.length (get_or length_base lc 0) n in
      let w3 = bw_code w2 (get_or c.dist_code dc 0) (get_or c.dist_len dc 0) in
      let one = lit-Appends w (257 + lc) ready (omega arith) in
      let room1 = Fits-Appends w w1 lit (n + (length dist + m)) one (omega arith) in
      let two =
        emit_extra-Appends w1 t.length (get_or length_base lc 0) n one.ready (length_extra_small lc)
          (omega arith) in
      let room2 = Fits-Appends w1 w2 len (length dist + m) two (omega arith) in
      let three = dist-Appends w2 dc two.ready (omega arith) in
      let room3 = Fits-Appends w2 w3 dist m three (omega arith) in
      let four =
        emit_extra-Appends w3 t.distance (get_or dist_base dc 0) m three.ready (dist_extra_small dc)
          room3 in
      Appends-trans w w1 _ lit _ one
        (Appends-trans w1 w2 _ len _ two (Appends-trans w2 w3 _ dist far three four))

  emit_token-Appends :
      (w : BitWriter) (t : Token)
      → IsReady w
      → Fits w (length (token_stream c t))
      → Appends w (emit_token c w t) (token_stream c t)
  unfolding emit_token token_stream
  emit_token-Appends w t ready room = elim (Bool-cases (t.length == 0)) [
    | inl literal ↦ simp literal (lit-Appends w t.literal ready (simp literal at room))
    | inr is_match ↦ simp is_match (
        match-Appends w t (length_to_code t.length) (distance_to_code t.distance) ready
          (simp is_match at room))
  ]

  -- With room for its bits a sequence of tokens, and the end of the block, are appended.
  pub emit_tokens-Appends :
      (w : BitWriter) (ts : List Token)
      → IsReady w
      → Fits w (length (stream_of c ts))
      → Appends w (emit_tokens c w ts) (stream_of c ts)
  unfolding emit_tokens stream_of
  emit_tokens-Appends w [] ready room = lit-Appends w 256 ready room
  emit_tokens-Appends w (t ∷ ts) ready room =
      let w' = emit_token c w t in
      let size = length-append (token_stream c t) (stream_of c ts) in
      let one = emit_token-Appends w t ready (omega arith) in
      Appends-trans w w' _ (token_stream c t) (stream_of c ts) one (
        emit_tokens-Appends w' ts one.ready
          (Fits-Appends w w' (token_stream c t) (length (stream_of c ts)) one (omega arith)))
