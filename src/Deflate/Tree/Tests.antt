-- ===== src/Deflate/Tree/Tests.antt =====
-- Runs of the construction of code lengths.
use foundations_lab.Base.{◌≡◌, refl, arith, [], ◌∷◌, some}
use foundations_lab.Deflate.Huffman.{zeros}
use foundations_lab.Deflate.Tree.{
  leaves, count_up, least, extract, merge, walk, mark_first, build_once, map_back, limit_loop,
  huff_build_lengths,
}
use foundations_lab.Deflate.Tree.Single.{lone, huff_build_lengths-lone}

four_symbols : huff_build_lengths (1 ∷ 0 ∷ 5 ∷ 2 ∷ 2 ∷ []) 15 ≡ some (3 ∷ 0 ∷ 1 ∷ 2 ∷ 3 ∷ [])
unfolding huff_build_lengths limit_loop build_once leaves count_up merge extract least walk
    mark_first map_back zeros
four_symbols = refl

huff_build_lengths-lone_example : huff_build_lengths (lone 2 12 27) 15 ≡ some (lone 2 0 27)
huff_build_lengths-lone_example = huff_build_lengths-lone 2 12 27 15 (omega arith) (omega arith)
