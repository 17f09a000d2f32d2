-- ===== src/Deflate/Huffman/Accepts.antt =====
-- Which lengths `huff_build_decoder` of C-Deflate/src/huffman.c accepts.
use foundations_lab.Base.{
  ℕ, ◌^◌, ◌<◌, ◌≡◌, ◌↔◌, refl, List, [], ◌∷◌, arith, set, length, All, le→ltb, Bool-cases, inl, inr,
}
use foundations_lab.Deflate.Status.{ok, err, corrupt, >>=-eq-ok}
use foundations_lab.Deflate.Huffman.{
  HuffDec, zeros, bump, count_checked, is_not_oversubscribed, fill_decoder, huff_build_decoder,
}
use foundations_lab.Deflate.Huffman.Count.{
  IsLength, IsTally, count_checked-IsTally, get_or-zeros, length-zeros,
}
use foundations_lab.Deflate.Huffman.Kraft.{IsKraft, is_not_oversubscribed-IsKraft_iff}
use foundations_lab.Deflate.Huffman.Decode.{cleared}

-- The counting loop accepts lengths up to 15, and refuses any other.
count_checked_ok : (ls a : List ℕ) → All IsLength ls → (c : List ℕ) × (count_checked ls a ≡ ok c)
unfolding count_checked
count_checked_ok [] a small = (a, refl)
count_checked_ok (x ∷ ls) a small =
    rw (le→ltb 15 x small.0) (count_checked_ok ls (bump a x) small.1)

fill_decoder_ok_iff :
    (d : HuffDec) (ls c : List ℕ)
    → IsTally ls (zeros 16) c
    → ((d' : HuffDec) × (fill_decoder d ls (set c 0 0) ≡ ok d')) ↔ IsKraft ls
unfolding fill_decoder
fill_decoder_ok_iff d ls c t =
    let counts = set c 0 0 in
    let passes = is_not_oversubscribed-IsKraft_iff counts ls (λ m. cleared ls c m t) in
    (
      λ (d', e). elim (Bool-cases (is_not_oversubscribed 15 1 1 counts)) [
        | inl fits ↦ passes.0 fits
        | inr over ↦ absurd (refused d' (rw over at e))
      ],
      λ kraft. rw (passes.1 kraft) (_, refl),
    )
  where
    refused : (d' : HuffDec) → err corrupt ≡ ok d' → ⊥
    refused d' h = cc

short-IsTally :
    (ls c : List ℕ)
    → length ls < 2 ^ 15
    → count_checked ls (zeros 16) ≡ ok c
    → IsTally ls (zeros 16) c
short-IsTally ls c short e =
    count_checked-IsTally ls (zeros 16) c (length-zeros 16)
      (λ m k. omega (arith, get_or-zeros 16 m)) e

-- On fewer than 2 ^ 15 lengths `huff_build_decoder` succeeds exactly if all are at most 15 and the
-- codes of every length fit its bits.
pub huff_build_decoder_accepts :
    (d : HuffDec) (ls : List ℕ)
    → length ls < 2 ^ 15
    → ((d' : HuffDec) × (huff_build_decoder d ls ≡ ok d')) ↔ (All IsLength ls × IsKraft ls)
unfolding huff_build_decoder
huff_build_decoder_accepts d ls short = (
  λ (d', e).
      let (c, counted, filled) = >>=-eq-ok (count_checked ls (zeros 16)) _ e in
      let t = short-IsTally ls c short counted in
      (t.small, (fill_decoder_ok_iff d ls c t).0 (d', filled)),
  λ (small, kraft).
      let (c, counted) = count_checked_ok ls (zeros 16) small in
      let (d', filled) = (fill_decoder_ok_iff d ls c (short-IsTally ls c short counted)).1 kraft in
      (d', rw counted filled),
)
