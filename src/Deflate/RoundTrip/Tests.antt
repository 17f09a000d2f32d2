-- ===== src/Deflate/RoundTrip/Tests.antt =====
-- Runs of the encoder and the decoder together.
use foundations_lab.Base.{
  ℕ, ◌+◌, ◌≤◌, ◌++◌, ◌≡◌, refl, arith, inl, inr, true, false, List, [], ◌∷◌, none, some, length,
  All, length-replicate, replicate, leb, leb→le,
}
use foundations_lab.Deflate.Huffman.{HuffDec}
use foundations_lab.Deflate.Stream.{lsb, msb, byte_bits}
use foundations_lab.Deflate.Bits.{BitReader, br_init, bw_init}
use foundations_lab.Deflate.Inflate.{Block, fixed_decoders, symbol_loop}
use foundations_lab.Deflate.RoundTrip.Blocks.{EndsAt}
use foundations_lab.Deflate.Window.{Token, IsReachable, expand_token, expand}
use foundations_lab.Deflate.Fixed.{
  fixed_lit_lengths, fixed_dist_lengths, length-fixed_lit_lengths, length-fixed_dist_lengths,
  fixed_lit_used,
}
use foundations_lab.Deflate.Lz77.Match.{IsInt32}
use foundations_lab.Deflate.Bits.Reader.{IsByte, pending, IsOpen}
use foundations_lab.Deflate.Tables.{scan_down, length_to_code, distance_to_code}
use foundations_lab.Deflate.Huffman.{
  zeros, bump, count_lengths, first_codes, next_codes, assign, huff_assign_codes,
}
use foundations_lab.Deflate.Lz77.{
  Slots, distance_to, hash3, run_length, match_limit, examine, search, find_match, insert,
  insert_run, step_greedy, step_lazy, step, parse_loop, lz77_parse, literal_token,
}
use foundations_lab.Deflate.Tree.{
  leaves, count_up, least, extract, merge, walk, mark_first, build_once, map_back, limit_loop,
  huff_build_lengths,
}
use foundations_lab.Deflate.Pack.{run_from, pack_runs, pack_run, pack_loop, pack_code_lengths}
use foundations_lab.Deflate.Header.{Scratch}
use foundations_lab.Deflate.Emit.{
  bump32, count_loop, count_symbols, token_cost, token_bits, deflate_bound,
}
use foundations_lab.Deflate.Compress.{
  Dynamic, some_dist, trim, count_codelens, extra_width, codes_of, with_codelens, pack_dynamic,
  plan_dynamic, packed_bits, dynamic_bits, fixed_codes, emit_fixed, finish, deflate_compress,
}
use foundations_lab.Deflate.Compress.Outcome.{Outcome}
use foundations_lab.Deflate.RoundTrip.Finish.{IsRestored}
use foundations_lab.Deflate.RoundTrip.Fixed.{
  IsRoomy, fixed_lit-IsDecoderOf, fixed_dist-IsDecoderOf, emit_fixed-IsRestored,
}
use foundations_lab.Deflate.RoundTrip.Stored.Whole.{deflate_compress_store-IsRestored}
use foundations_lab.Deflate.RoundTrip.Tokens.{token_stream, stream_of}
use foundations_lab.Deflate.RoundTrip.Tokens.Read.{IsCovered, symbol_loop_reads}
use foundations_lab.Deflate.RoundTrip.Tokens.Cost.{token_bits_lem}
use foundations_lab.Deflate.RoundTrip.Whole.{
  plenty, fixed_size, fixed_stream, deflate_compress-IsRestored,
}

abbrev blank : HuffDec
blank = record { counts = []; symbols = replicate 286 0 }

abbrev scratch : Scratch
scratch = record { lit = blank; dist = blank; codelen = blank }

abbrev no_slots : Slots
no_slots i = none

scratch-IsRoomy : IsRoomy scratch
scratch-IsRoomy =
    let size = length-replicate {A = ℕ} 286 0 in
    (omega (arith, size), omega (arith, size), omega (arith, size))

abbrev aba : List ℕ
aba = 97 ∷ 98 ∷ 97 ∷ []

bound_of_three : deflate_bound 3 ≤ 100
unfolding deflate_bound
bound_of_three = omega arith

aba_bytes : All IsByte aba
aba_bytes = (omega arith, (omega arith, (omega arith, tt)))

deflate_compress_store-IsRestored_example :
    IsRestored scratch aba (deflate_compress (plenty no_slots) aba 100 0)
deflate_compress_store-IsRestored_example =
    deflate_compress_store-IsRestored scratch (plenty no_slots) aba 100 aba_bytes bound_of_three

abbrev aba_tokens : List Token
aba_tokens = literal_token 97 ∷ literal_token 98 ∷ literal_token 97 ∷ []

aba_parsed : lz77_parse aba 6 true no_slots ≡ some aba_tokens
unfolding distance_to hash3 run_length match_limit examine search find_match insert insert_run
    step_greedy step_lazy step parse_loop lz77_parse
aba_parsed = refl

abbrev aba_plan : (d : Dynamic) × (plan_dynamic aba_tokens ≡ some d)
unfolding plan_dynamic pack_dynamic codes_of with_codelens count_codelens trim some_dist
    count_symbols count_loop bump32 pack_code_lengths pack_loop pack_run pack_runs run_from
    huff_build_lengths limit_loop build_once leaves count_up merge extract least walk mark_first
    map_back huff_assign_codes next_codes first_codes count_lengths assign bump zeros length_to_code
    distance_to_code scan_down
aba_plan = (_, refl)

no_slots-IsInt32 : IsInt32 no_slots
no_slots-IsInt32 i c e = cc

-- Three literals are shorter in the fixed code than with a header of their own.
fixed_is_shorter : leb (fixed_size aba_tokens) (dynamic_bits aba_tokens aba_plan.0) ≡ true
unfolding plan_dynamic pack_dynamic codes_of with_codelens count_codelens trim some_dist
    count_symbols count_loop bump32 pack_code_lengths pack_loop pack_run pack_runs run_from
    huff_build_lengths limit_loop build_once leaves count_up merge extract least walk mark_first
    map_back huff_assign_codes next_codes first_codes count_lengths assign bump zeros length_to_code
    distance_to_code scan_down dynamic_bits token_bits token_cost packed_bits extra_width aba_plan
    fixed_lit_lengths fixed_dist_lengths
fixed_is_shorter = refl

deflate_compress-IsRestored_example :
    IsRestored scratch aba (deflate_compress (plenty no_slots) aba 100 6)
deflate_compress-IsRestored_example =
    deflate_compress-IsRestored scratch no_slots aba 100 6 aba_tokens aba_plan.0 scratch-IsRoomy
      no_slots-IsInt32 aba_bytes (omega arith) (omega arith) bound_of_three (omega arith)
      (omega arith) aba_parsed aba_plan.1 (inr (leb→le _ _ fixed_is_shorter))

aba-IsReachable : IsReachable [] aba_tokens
unfolding expand_token
aba-IsReachable = ground arith

aba_cost : token_bits aba_tokens fixed_lit_lengths fixed_dist_lengths ≡ 31
unfolding token_bits token_cost fixed_lit_lengths fixed_dist_lengths
aba_cost = refl

aba_fits : 3 + length (stream_of fixed_codes aba_tokens) ≤ 800
aba_fits = omega (arith, fixed_stream aba_tokens, aba_cost)

emit_fixed-IsRestored_example :
    IsRestored scratch (expand [] aba_tokens) (some (finish (emit_fixed (bw_init 100) aba_tokens)))
emit_fixed-IsRestored_example =
    emit_fixed-IsRestored scratch 100 aba_tokens scratch-IsRoomy aba-IsReachable aba_fits

token_bits_lem_example :
    length (stream_of fixed_codes aba_tokens)
    ≡ token_bits aba_tokens fixed_codes.lit_len fixed_codes.dist_len
token_bits_lem_example = token_bits_lem fixed_codes aba_tokens

-- The byte 97 and the end of the block in the fixed code, the first bit lowest.
abbrev coded : BitReader
unfolding br_init
coded = br_init (137 ∷ 0 ∷ [])

coded-IsOpen : IsOpen coded
unfolding coded
coded-IsOpen = (omega arith, omega arith, (omega arith, (omega arith, tt)))

coded_bits :
    pending coded
    ≡ stream_of (codes_of fixed_lit_lengths fixed_dist_lengths) (literal_token 97 ∷ []) ++ (0 ∷ [])
unfolding coded stream_of token_stream codes_of fixed_lit_lengths fixed_dist_lengths
    huff_assign_codes next_codes first_codes count_lengths assign bump zeros lsb msb byte_bits
coded_bits = refl

coded_clear : coded.underflow ≡ false
unfolding coded
coded_clear = refl

one-IsCovered : IsCovered fixed_lit_lengths fixed_dist_lengths (literal_token 97)
one-IsCovered = (λ e. fixed_lit_used 97 (omega arith), λ h. absurd (h refl))

symbol_loop_reads_example :
    (b : Block) × (symbol_loop 5 (fixed_decoders scratch).0 (fixed_decoders scratch).1 9 coded []
      ≡ some b)
    × EndsAt b (expand [] (literal_token 97 ∷ [])) (0 ∷ [])
unfolding expand expand_token
symbol_loop_reads_example =
    symbol_loop_reads fixed_lit_lengths fixed_dist_lengths (fixed_decoders scratch).0
      (fixed_decoders scratch).1 (fixed_lit-IsDecoderOf scratch scratch-IsRoomy)
      (fixed_dist-IsDecoderOf scratch scratch-IsRoomy) (omega (arith, length-fixed_lit_lengths))
      (omega (arith, length-fixed_dist_lengths)) (literal_token 97 ∷ []) 5 9 coded [] (0 ∷ [])
      coded-IsOpen coded_clear ((inl (refl, omega arith), omega arith), tt) (one-IsCovered, tt)
      (fixed_lit_used 256 (omega arith)) (omega arith) (omega arith) coded_bits
