-- ===== src/Deflate/Header/Tests.antt =====
-- A run of the loop that reads code lengths: two symbols of one bit, the codes 0 and 1.
use foundations_lab.Base.{ℕ, ◌≡◌, refl, arith, List, [], ◌∷◌, length}
use foundations_lab.Deflate.Bits.{BitReader, br_init, br_bits}
use foundations_lab.Deflate.Bits.Reader.{IsOpen}
use foundations_lab.Deflate.Bits.Progress.{IsAfter}
use foundations_lab.Deflate.Status.{ok}
use foundations_lab.Deflate.Huffman.{HuffDec, decode_loop, huff_decode}
use foundations_lab.Deflate.Header.{take_symbol, lengths_step, read_lengths}
use foundations_lab.Deflate.Header.Progress.{read_lengths_lem}

abbrev two_codes : HuffDec
two_codes = record { counts = 0 ∷ 2 ∷ []; symbols = 0 ∷ 1 ∷ [] }

abbrev lengths_run :
    (next : List ℕ × BitReader) × (read_lengths 3 two_codes 3 (br_init (2 ∷ [])) [] ≡ ok next)
unfolding read_lengths lengths_step take_symbol huff_decode decode_loop br_bits br_init
lengths_run = (_, refl)

entries_read : lengths_run.0.0 ≡ 0 ∷ 1 ∷ 0 ∷ []
unfolding lengths_run
entries_read = refl

starts-IsOpen : IsOpen (br_init (2 ∷ []))
unfolding br_init
starts-IsOpen = (omega arith, omega arith, (omega arith, tt))

read_lengths_lem_example :
    (length lengths_run.0.0 ≡ 3) × IsAfter 0 (br_init (2 ∷ [])) lengths_run.0.1
read_lengths_lem_example =
    read_lengths_lem 3 two_codes 3 (br_init (2 ∷ [])) [] lengths_run.0 starts-IsOpen (omega arith)
      (omega arith) lengths_run.1
