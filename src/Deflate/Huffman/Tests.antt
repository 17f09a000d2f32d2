-- ===== src/Deflate/Huffman/Tests.antt =====
-- Runs of the canonical Huffman code: the example of RFC 1951, 3.2.2.
use foundations_lab.Base.{
  ℕ, ◌+◌, ◌++◌, ◌↔◌, arith, All, get_or, take, length-replicate, ◌≡◌, refl, List, [], ◌∷◌,
  replicate,
}
use foundations_lab.Deflate.Stream.{lsb, msb, byte_bits}
use foundations_lab.Deflate.Bits.{br_init, br_bits}
use foundations_lab.Deflate.Bits.Reader.{pending, IsOpen}
use foundations_lab.Deflate.Huffman.Count.{count, IsLength}
use foundations_lab.Deflate.Huffman.Kraft.{first_code, IsKraft}
use foundations_lab.Deflate.Huffman.Codes.{huff_assign_codes_lem}
use foundations_lab.Deflate.Huffman.Decode.{Decodes, huff_decode-huff_assign_codes}
use foundations_lab.Deflate.Huffman.Accepts.{huff_build_decoder_accepts}
use foundations_lab.Deflate.Huffman.{
  HuffDec, zeros, count_lengths, first_codes, next_codes, assign, huff_assign_codes, count_checked,
  is_not_oversubscribed, sum_offsets, place_symbols, fill_decoder, huff_build_decoder, decode_loop,
  huff_decode,
}
use foundations_lab.Deflate.Status.{ok, err, corrupt}

abbrev rfc_lengths : List ℕ
rfc_lengths = 3 ∷ 3 ∷ 3 ∷ 3 ∷ 3 ∷ 2 ∷ 4 ∷ 4 ∷ []

abbrev blank : HuffDec
blank = record { counts = []; symbols = replicate 286 0 }

rfc_codes : huff_assign_codes rfc_lengths ≡ 2 ∷ 3 ∷ 4 ∷ 5 ∷ 6 ∷ 0 ∷ 14 ∷ 15 ∷ []
unfolding huff_assign_codes next_codes first_codes count_lengths assign zeros
rfc_codes = refl

over_subscribed : huff_build_decoder blank (1 ∷ 1 ∷ 1 ∷ []) ≡ err corrupt
unfolding huff_build_decoder fill_decoder count_checked is_not_oversubscribed sum_offsets
    place_symbols zeros
over_subscribed = refl

abbrev rfc_decoder : HuffDec
rfc_decoder = record {
  counts = 0 ∷ 0 ∷ 1 ∷ 5 ∷ 2 ∷ 0 ∷ 0 ∷ 0 ∷ 0 ∷ 0 ∷ 0 ∷ 0 ∷ 0 ∷ 0 ∷ 0 ∷ 0 ∷ [];
  symbols = 5 ∷ 0 ∷ 1 ∷ 2 ∷ 3 ∷ 4 ∷ 6 ∷ 7 ∷ replicate 278 0;
}

rfc_tables : huff_build_decoder blank rfc_lengths ≡ ok rfc_decoder
unfolding huff_build_decoder fill_decoder count_checked is_not_oversubscribed sum_offsets
    place_symbols zeros
rfc_tables = refl

-- 1110 is the code of symbol 6; its first bit is the lowest of the byte.
decodes_six : (huff_decode rfc_decoder (br_init (7 ∷ []))).0 ≡ ok 6
unfolding huff_decode decode_loop br_init br_bits
decodes_six = refl

abbrev six_bits : List ℕ
six_bits = 0 ∷ 0 ∷ 0 ∷ 0 ∷ []

six_is_next :
    pending (br_init (7 ∷ [])) ≡ msb 4 (get_or (huff_assign_codes rfc_lengths) 6 0) ++ six_bits
unfolding huff_assign_codes next_codes first_codes count_lengths assign zeros br_init lsb msb
    byte_bits
six_is_next = refl

starts-IsOpen : IsOpen (br_init (7 ∷ []))
unfolding br_init
starts-IsOpen = (omega arith, omega arith, (omega arith, tt))

huff_decode-huff_assign_codes_example :
    Decodes (br_init (7 ∷ [])) 6 six_bits (huff_decode rfc_decoder (br_init (7 ∷ [])))
huff_decode-huff_assign_codes_example =
    huff_decode-huff_assign_codes blank rfc_decoder rfc_lengths 6 (br_init (7 ∷ [])) six_bits
      (omega arith) (omega (arith, length-replicate {A = ℕ} 286 0)) rfc_tables (omega arith)
      (omega arith) starts-IsOpen six_is_next

huff_build_decoder_accepts_example :
    ((d : HuffDec) × (huff_build_decoder blank rfc_lengths ≡ ok d))
    ↔ (All IsLength rfc_lengths × IsKraft rfc_lengths)
huff_build_decoder_accepts_example = huff_build_decoder_accepts blank rfc_lengths (omega arith)

rfc_small : All IsLength rfc_lengths × IsKraft rfc_lengths
rfc_small = (huff_build_decoder_accepts blank rfc_lengths (omega arith)).0 (rfc_decoder, rfc_tables)

huff_assign_codes_lem_example :
    get_or (huff_assign_codes rfc_lengths) 4 0
    ≡ first_code rfc_lengths 3 + count 3 (take 4 rfc_lengths)
huff_assign_codes_lem_example =
    huff_assign_codes_lem rfc_lengths 4 rfc_small.0 rfc_small.1 (omega arith) (omega arith)
      (omega arith)
