-- ===== src/Deflate/RoundTrip/Whole.antt =====
-- `deflate_compress` of C-Deflate/src/deflate.c and `deflate_decompress` of C-Deflate/src/inflate.c,
-- where the encoder does not choose the dynamic code.
use foundations_lab.Base.{
  ℕ, ◌+◌, ◌*◌, ◌^◌, ◌≤◌, ◌<◌, ◌≡◌, ◌⊎◌, inl, inr, sym, subst, ap, ◌∙◌, arith, true, List, [], some,
  length, All, All-get_or, leb, le→leb, le→ltb, ne→==, Bool-cases, tests,
}
use foundations_lab.Deflate.Bits.{bw_init}
use foundations_lab.Deflate.Bits.Reader.{IsByte}
use foundations_lab.Deflate.Window.{Token, IsReachable, expand}
use foundations_lab.Deflate.Lz77.{Slots, byte, lz77_parse}
use foundations_lab.Deflate.Lz77.Match.{IsInt32}
use foundations_lab.Deflate.Lz77.Expand.{lz77_parse-IsParseOf}
use foundations_lab.Deflate.Fixed.{fixed_lit_lengths, fixed_dist_lengths}
use foundations_lab.Deflate.Header.{Scratch}
use foundations_lab.Deflate.Emit.{token_bits, deflate_bound}
use foundations_lab.Deflate.Compress.{
  Heap, Dynamic, codes_of, fixed_codes, plan_dynamic, dynamic_bits, emit_fixed, emit_smallest,
  finish, compress_tokens, compress_parsed, deflate_compress,
}
use foundations_lab.Deflate.RoundTrip.Finish.{IsRestored}
use foundations_lab.Deflate.RoundTrip.Stored.Whole.{chunks-IsRestored}
use foundations_lab.Deflate.RoundTrip.Tokens.{stream_of}
use foundations_lab.Deflate.RoundTrip.Tokens.Cost.{token_bits_lem}
use foundations_lab.Deflate.RoundTrip.Fixed.{IsRoomy, emit_fixed-IsRestored}

-- The sizes that the encoder compares.
abbrev pub stored_size : List ℕ → ℕ
stored_size input = 3 + 32 + length input * 8

abbrev pub fixed_size : List Token → ℕ
fixed_size ts = 3 + token_bits ts fixed_lit_lengths fixed_dist_lengths

pub fixed_stream :
    (ts : List Token)
    → length (stream_of fixed_codes ts) ≡ token_bits ts fixed_lit_lengths fixed_dist_lengths
unfolding fixed_codes codes_of
fixed_stream ts = token_bits_lem fixed_codes ts

-- The fixed code is only taken where it is no longer than the stored form, which fits.
fixed_fits : (n f cap : ℕ) → deflate_bound n ≤ cap → f ≤ 35 + n * 8 → f ≤ 8 * cap
unfolding deflate_bound
fixed_fits n f cap room h = omega arith

emit_smallest-IsRestored :
    (s : Scratch) (input : List ℕ) (cap : ℕ) (ts : List Token) (d : Dynamic)
    → IsRoomy s
    → All IsByte input
    → 0 < length input
    → deflate_bound (length input) ≤ cap
    → IsReachable [] ts
    → expand [] ts ≡ input
    → (stored_size input ≤ dynamic_bits ts d) ⊎ (fixed_size ts ≤ dynamic_bits ts d)
    → IsRestored s input (some (finish (emit_smallest (bw_init cap) input ts d)))
unfolding emit_smallest
emit_smallest-IsRestored s input cap ts d roomy small pos room reach e choice =
    elim (Bool-cases (leb (stored_size input) (fixed_size ts))) [
      | inr shorter ↦
          let fixed_le : fixed_size ts ≤ dynamic_bits ts d = elim choice [
            | inl k ↦ omega tests
            | inr k ↦ k
          ] in
          rw (shorter, le→leb (fixed_size ts) (dynamic_bits ts d) fixed_le) (fixed (omega tests))
      | inl no_longer ↦ elim (Bool-cases (leb (stored_size input) (dynamic_bits ts d))) [
        | inl stored ↦ rw (no_longer, stored) (chunks-IsRestored s input cap small pos room)
        | inr dynamic_less ↦ absurd (elim choice [ inl k ↦ omega tests | inr k ↦ omega tests ])
      ]
    ]
  where
    fixed :
        fixed_size ts ≤ stored_size input
        → IsRestored s input (some (finish (emit_fixed (bw_init cap) ts)))
    fixed h =
        subst (λ i. IsRestored s i (some (finish (emit_fixed (bw_init cap) ts)))) e
          (emit_fixed-IsRestored s cap ts roomy reach (
            fixed_fits (length input) (3 + length (stream_of fixed_codes ts)) cap room
              (omega (arith, fixed_stream ts))))

bytes_at : (input : List ℕ) → All IsByte input → (i : ℕ) → byte input i < 256
bytes_at input small i = All-get_or IsByte input i 0 small (omega arith)

-- Where `malloc` gives what is asked for.
abbrev pub plenty : Slots → Heap
plenty prev = record { tokens = true; chains = true; prev = prev }

-- At the levels 1 to 9, with memory given, `int32_t` values in the second chain array, a buffer of
-- `deflate_bound` bytes, an input of at least one byte and less than 2 ^ 64, and scratch decoders
-- of full size: where the parse gives tokens whose dynamic candidate is built, with an estimate no
-- smaller than that of the stored or of the fixed candidate, `deflate_compress` returns bytes from
-- which `deflate_decompress` restores the input.
pub deflate_compress-IsRestored :
    (s : Scratch) (prev : Slots) (input : List ℕ) (cap level : ℕ) (ts : List Token) (d : Dynamic)
    → IsRoomy s
    → IsInt32 prev
    → All IsByte input
    → 0 < length input
    → length input < 2 ^ 64
    → deflate_bound (length input) ≤ cap
    → 1 ≤ level
    → level ≤ 9
    → lz77_parse input level true prev ≡ some ts
    → plan_dynamic ts ≡ some d
    → (stored_size input ≤ dynamic_bits ts d) ⊎ (fixed_size ts ≤ dynamic_bits ts d)
    → IsRestored s input (deflate_compress (plenty prev) input cap level)
unfolding deflate_compress compress_parsed compress_tokens
deflate_compress-IsRestored s prev input cap level ts d roomy slots small pos short room lo hi
      parsed planned choice =
    let parse = lz77_parse-IsParseOf input level prev (bytes_at input small) short slots in
    let same : parse.tokens ≡ ts = some-injective (sym parse.returned ∙ parsed) in
    rw
      (
        le→ltb 9 level hi,
        ne→== (length input) 0 (omega arith),
        ne→== level 0 (omega arith),
        parsed,
        planned,
      )
      (emit_smallest-IsRestored s input cap ts d roomy small pos room
        (subst (IsReachable []) same parse.legal) (ap (expand []) (sym same) ∙ parse.expands)
        choice)
  where
    some-injective : {a b : List Token} → some a ≡ some b → a ≡ b
    some-injective k = cc
