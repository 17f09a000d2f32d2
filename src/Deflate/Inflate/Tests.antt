-- ===== src/Deflate/Inflate/Tests.antt =====
-- Runs of the decoder.
use foundations_lab.Base.{ℕ, ◌≡◌, refl, arith, List, [], ◌∷◌, some, replicate}
use foundations_lab.Deflate.Bits.{br_init, br_bits, br_align}
use foundations_lab.Deflate.Status.{Result, ok, err, input, corrupt}
use foundations_lab.Deflate.Huffman.{HuffDec}
use foundations_lab.Deflate.Header.{Scratch}
use foundations_lab.Deflate.Inflate.{
  stored_loop, stored_block, read_block, block_loop, deflate_decompress,
}
use foundations_lab.Deflate.Inflate.Progress.{IsWithin, deflate_decompress-IsWithin}

abbrev blank : HuffDec
blank = record { counts = []; symbols = replicate 286 0 }

abbrev scratch : Scratch
scratch = record { lit = blank; dist = blank; codelen = blank }

abbrev two_stored : List ℕ
two_stored = 1 ∷ 2 ∷ 0 ∷ 253 ∷ 255 ∷ 7 ∷ 8 ∷ []

stored_run : deflate_decompress scratch two_stored 2 ≡ some (ok (7 ∷ 8 ∷ []))
unfolding deflate_decompress block_loop read_block stored_block stored_loop br_init br_bits br_align
stored_run = refl

truncated : deflate_decompress scratch [] 2 ≡ some (err input)
unfolding deflate_decompress block_loop br_init br_bits
truncated = refl

reserved_type : deflate_decompress scratch (7 ∷ []) 2 ≡ some (err corrupt)
unfolding deflate_decompress block_loop read_block br_init br_bits
reserved_type = refl

deflate_decompress-IsWithin_example :
    (x : Result (List ℕ)) × (deflate_decompress scratch (7 ∷ 0 ∷ []) 2 ≡ some x) × IsWithin 2 x
deflate_decompress-IsWithin_example =
    deflate_decompress-IsWithin scratch (7 ∷ 0 ∷ []) 2 (omega arith, (omega arith, tt))
