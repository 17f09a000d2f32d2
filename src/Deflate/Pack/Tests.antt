-- ===== src/Deflate/Pack/Tests.antt =====
-- Runs of the packing of code lengths.
use foundations_lab.Base.{ℕ, ◌≡◌, refl, arith, List, [], ◌∷◌, All}
use foundations_lab.Deflate.Pack.{run_from, pack_runs, pack_run, pack_loop, pack_code_lengths}
use foundations_lab.Deflate.Pack.Sent.{CanBeSent}
use foundations_lab.Deflate.Pack.Unpack.{unpack, unpack-pack_code_lengths}

abbrev five_and_zeros : List ℕ
five_and_zeros = 5 ∷ 5 ∷ 5 ∷ 5 ∷ 5 ∷ 0 ∷ 0 ∷ 0 ∷ 0 ∷ 7 ∷ []

packed_run : pack_code_lengths five_and_zeros ≡ (5, 0) ∷ (16, 1) ∷ (17, 1) ∷ (7, 0) ∷ []
unfolding pack_code_lengths pack_loop pack_run pack_runs run_from
packed_run = refl

unpack-pack_code_lengths_example :
    All CanBeSent (pack_code_lengths five_and_zeros)
    × (unpack (pack_code_lengths five_and_zeros) [] ≡ five_and_zeros)
unpack-pack_code_lengths_example = unpack-pack_code_lengths five_and_zeros (ground arith)
