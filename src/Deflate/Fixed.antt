-- ===== src/Deflate/Fixed.antt =====
-- The code lengths of the fixed code (RFC 1951, 3.2.6): `fixed_lengths` of C-Deflate/src/deflate.c
-- and the loops of `fixed_decoders` of C-Deflate/src/inflate.c, which are the same.
use foundations_lab.Base.{
  ℕ, ◌+◌, ◌^◌, ◌<◌, All-append, All-replicate, ltb→lt, ◌≡◌, ◌≢◌, refl, List, ◌++◌, replicate,
  length, get_or, All, arith, Bool, true, ltb, leb, all_below, all_below_sound, leb→le,
}
use foundations_lab.Deflate.Huffman.Count.{IsLength}
use foundations_lab.Deflate.Huffman.Kraft.{used, first_code, IsKraft}

unfoldable pub fixed_lit_lengths : List ℕ
fixed_lit_lengths = replicate 144 8 ++ (replicate 112 9 ++ (replicate 24 7 ++ replicate 6 8))

unfoldable pub fixed_dist_lengths : List ℕ
fixed_dist_lengths = replicate 30 5

pub length-fixed_lit_lengths : length fixed_lit_lengths ≡ 286
unfolding fixed_lit_lengths
length-fixed_lit_lengths = refl

pub length-fixed_dist_lengths : length fixed_dist_lengths ≡ 30
unfolding fixed_dist_lengths
length-fixed_dist_lengths = refl

-- A property of all entries of a list of at most `n`, checked by evaluation.
entries : ℕ → List ℕ → Bool
unfolding all_below
entries n ls = all_below n (λ s. ltb 0 (get_or ls s 0))

kraft_table : List ℕ → Bool
unfolding all_below first_code used
kraft_table ls = all_below 16 (λ l. leb (first_code ls l + used l ls) (2 ^ l))

used_of_entries : (n : ℕ) (ls : List ℕ) (s : ℕ) → entries n ls ≡ true → s < n → get_or ls s 0 ≢ 0
unfolding entries
used_of_entries n ls s table h =
    let here = all_below_sound n (λ t. ltb 0 (get_or ls t 0)) s table h in
    omega (arith, ltb→lt 0 (get_or ls s 0) here)

IsKraft-of_table : (ls : List ℕ) → kraft_table ls ≡ true → IsKraft ls
unfolding kraft_table
IsKraft-of_table ls table l h =
    leb→le _ _
      (all_below_sound 16 (λ m. leb (first_code ls m + used m ls) (2 ^ m)) l table (omega arith))

lit_entries : entries 286 fixed_lit_lengths ≡ true
unfolding entries fixed_lit_lengths
lit_entries = refl

dist_entries : entries 30 fixed_dist_lengths ≡ true
unfolding entries fixed_dist_lengths
dist_entries = refl

lit_kraft : kraft_table fixed_lit_lengths ≡ true
unfolding kraft_table fixed_lit_lengths
lit_kraft = refl

dist_kraft : kraft_table fixed_dist_lengths ≡ true
unfolding kraft_table fixed_dist_lengths
dist_kraft = refl

-- The fixed codes use every symbol, with at most 15 bits, and fit their bits.
pub fixed_lit_used : (s : ℕ) → s < 286 → get_or fixed_lit_lengths s 0 ≢ 0
fixed_lit_used s h = used_of_entries 286 fixed_lit_lengths s lit_entries h

pub fixed_dist_used : (s : ℕ) → s < 30 → get_or fixed_dist_lengths s 0 ≢ 0
fixed_dist_used s h = used_of_entries 30 fixed_dist_lengths s dist_entries h

pub fixed_lit-IsKraft : IsKraft fixed_lit_lengths
fixed_lit-IsKraft = IsKraft-of_table fixed_lit_lengths lit_kraft

pub fixed_dist-IsKraft : IsKraft fixed_dist_lengths
fixed_dist-IsKraft = IsKraft-of_table fixed_dist_lengths dist_kraft

pub fixed_lit-IsLength : All IsLength fixed_lit_lengths
unfolding fixed_lit_lengths
fixed_lit-IsLength =
    All-append IsLength (replicate 144 8) (replicate 112 9 ++ (replicate 24 7 ++ replicate 6 8))
      (All-replicate IsLength 144 8 (omega arith))
      (All-append IsLength (replicate 112 9) (replicate 24 7 ++ replicate 6 8)
        (All-replicate IsLength 112 9 (omega arith))
        (All-append IsLength (replicate 24 7) (replicate 6 8)
          (All-replicate IsLength 24 7 (omega arith)) (All-replicate IsLength 6 8 (omega arith))))

pub fixed_dist-IsLength : All IsLength fixed_dist_lengths
unfolding fixed_dist_lengths
fixed_dist-IsLength = All-replicate IsLength 30 5 (omega arith)
