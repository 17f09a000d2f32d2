-- ===== src/Deflate/RoundTrip/Tokens/Steps.antt =====
-- Rounds of the loop over symbols of C-Deflate/src/inflate.c, once the symbols and the fields read are
-- known.
use foundations_lab.Base.{
  ℕ, ◌+◌, ◌-◌, ◌≤◌, ◌<◌, ◌≡◌, refl, ap, arith, false, List, [], ◌∷◌, ◌++◌, length, get_or, lt→ltb,
  le→ltb, lt→leb, ne→==,
}
use foundations_lab.Deflate.Bits.{BitReader, br_bits}
use foundations_lab.Deflate.Tables.{length_base, length_extra, dist_base, dist_extra}
use foundations_lab.Deflate.Status.{ok}
use foundations_lab.Deflate.Huffman.{HuffDec, huff_decode}
use foundations_lab.Deflate.Window.{copy_match}
use foundations_lab.Deflate.Inflate.{more, block_end, match_distance, match_step, symbol_step}

module _ (dist : HuffDec) (cap : ℕ) (out : List ℕ) where
  pub literal_step :
      (lit : HuffDec) (r : BitReader) (s : ℕ)
      → (huff_decode lit r).0 ≡ ok s
      → (huff_decode lit r).1.underflow ≡ false
      → s < 256
      → length out < cap
      → symbol_step lit dist cap r out ≡ more (huff_decode lit r).1 (out ++ (s ∷ []))
  unfolding symbol_step
  literal_step lit r s good lasts small room =
      rw
        (
          good,
          symbol_step,
          lasts,
          ne→== s 256 (omega arith),
          lt→ltb s 256 small,
          lt→leb cap (length out) room,
        )
        refl

  pub length_step :
      (lit : HuffDec) (r : BitReader) (lc : ℕ)
      → (huff_decode lit r).0 ≡ ok (257 + lc)
      → (huff_decode lit r).1.underflow ≡ false
      → symbol_step lit dist cap r out ≡ match_step dist cap (huff_decode lit r).1 out lc
  unfolding symbol_step
  length_step lit r lc good lasts =
      rw
        (
          good,
          symbol_step,
          lasts,
          ne→== (257 + lc) 256 (omega arith),
          le→ltb (257 + lc) 256 (omega arith),
        )
        (ap (match_step dist cap (huff_decode lit r).1 out) (omega arith))

  pub extra_step :
      (r : BitReader) (lc v : ℕ)
      → lc < 29
      → (br_bits r (get_or length_extra lc 0)).0 ≡ v
      → match_step dist cap r out lc
        ≡ match_distance dist cap
            (br_bits r (get_or length_extra lc 0)).1
            out
            (get_or length_base lc 0 + v)
  unfolding match_step
  extra_step r lc v below value = rw (lt→leb 29 lc below, value) refl

  pub distance_step :
      (r : BitReader) (len dc v distance : ℕ)
      → (huff_decode dist r).0 ≡ ok dc
      → dc < 30
      → (br_bits (huff_decode dist r).1 (get_or dist_extra dc 0)).0 ≡ v
      → get_or dist_base dc 0 + v ≡ distance
      → distance ≤ length out
      → length out + len ≤ cap
      → match_distance dist cap r out len
        ≡ more
            (br_bits (huff_decode dist r).1 (get_or dist_extra dc 0)).1
            (copy_match len (length out - distance) out)
  unfolding match_distance
  distance_step r len dc v distance good below value total near room =
      rw
        (
          good,
          match_distance,
          lt→leb 30 dc below,
          value,
          total,
          le→ltb (length out) distance near,
          le→ltb cap (length out + len) room,
        )
        refl

  pub end_step :
      (lit : HuffDec) (r : BitReader)
      → (huff_decode lit r).0 ≡ ok 256
      → (huff_decode lit r).1.underflow ≡ false
      → symbol_step lit dist cap r out ≡ block_end (ok ((huff_decode lit r).1, out))
  unfolding symbol_step
  end_step lit r good lasts = rw (good, symbol_step, lasts) refl
