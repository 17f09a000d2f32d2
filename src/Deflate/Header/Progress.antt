-- ===== src/Deflate/Header/Progress.antt =====
-- `read_dynamic_header` of C-Deflate/src/inflate.c on any stream: the reader only goes on, and the
-- loop over the code lengths ends with as many as the header announces.
use foundations_lab.Base.{
  ℕ, zero, suc, ◌+◌, ◌≤◌, ◌<◌, ◌≡◌, subst, lt→ltb, ap, sym, arith, List, [], ◌∷◌, ◌++◌, length,
  length-append, take, drop, ltb, ◌==◌, Bool-cases, inl, inr, tests,
}
use foundations_lab.Deflate.Bits.{BitReader, br_bits}
use foundations_lab.Deflate.Bits.Reader.{IsOpen}
use foundations_lab.Deflate.Bits.Progress.{
  IsAfter, IsAfter-start, IsAfter-trans, IsAfter-weaken, br_bits-IsAfter,
}
use foundations_lab.Deflate.Status.{
  ok, ok-injective, err-ne-ok, >>=-eq-ok, guard-eq-ok, input, corrupt,
}
use foundations_lab.Deflate.Huffman.{HuffDec, huff_build_decoder, huff_decode, zeros}
use foundations_lab.Deflate.Huffman.Progress.{huff_decode-IsAfter}
use foundations_lab.Deflate.Header.{
  Scratch, read_codelens, fill_run, read_run, take_symbol, lengths_step, read_lengths, build_pair,
  read_tables, read_dynamic_header,
}

pub read_codelens-IsAfter :
    (left i : ℕ) (r : BitReader) (cl_len : List ℕ)
    → IsOpen r
    → IsAfter 0 r (read_codelens left i r cl_len).1
unfolding read_codelens
read_codelens-IsAfter zero i r cl_len o = IsAfter-start r o
read_codelens-IsAfter (suc left) i r cl_len o =
    let r' = (br_bits r 3).1 in
    let one = IsAfter-weaken 3 0 r r' (omega arith) (br_bits-IsAfter r 3 o (omega arith)) in
    IsAfter-trans 0 0 r r' _ one (read_codelens-IsAfter left (i + 1) r' _ one.opened)

-- A run stays within the total, and makes progress.
fill_run-length :
    (repeat value total : ℕ) (ls : List ℕ)
    → length ls ≤ total
    → (length ls ≤ length (fill_run repeat value total ls))
      × (length (fill_run repeat value total ls) ≤ total)
unfolding fill_run
fill_run-length zero value total ls h = (omega arith, h)
fill_run-length (suc repeat) value total ls h = elim (Bool-cases (ltb (length ls) total)) [
  | inl room ↦
      let one = length-append ls (value ∷ []) in
      let (lo, hi) = fill_run-length repeat value total (ls ++ (value ∷ [])) (omega (tests, one)) in
      rw room (omega (arith, one), hi)
  | inr full ↦ rw full (omega arith, h)
]

fill_run-grows :
    (repeat value total : ℕ) (ls : List ℕ)
    → 0 < repeat
    → length ls < total
    → (length ls < length (fill_run repeat value total ls))
      × (length (fill_run repeat value total ls) ≤ total)
unfolding fill_run
fill_run-grows zero value total ls pos h = absurd (omega arith)
fill_run-grows (suc repeat) value total ls pos h =
    let one = length-append ls (value ∷ []) in
    let (lo, hi) = fill_run-length repeat value total (ls ++ (value ∷ [])) (omega (arith, one)) in
    rw (lt→ltb (length ls) total h) (omega (arith, one), hi)

-- A round writes an entry at least, and no entry beyond the total.
record IsRound (total : ℕ) (r : BitReader) (ls : List ℕ) (next : List ℕ × BitReader) : Type 0 where
  after : IsAfter 0 r next.1
  grows : length ls < length next.0
  fits : length next.0 ≤ total

read_run-IsRound :
    (base width value total : ℕ) (r : BitReader) (ls : List ℕ)
    → IsOpen r
    → 0 < base
    → width ≤ 24
    → length ls < total
    → IsRound total r ls (read_run base width value total r ls)
unfolding read_run
read_run-IsRound base width value total r ls o pos narrow h =
    let (lo, hi) = fill_run-grows (base + (br_bits r width).0) value total ls (omega arith) h in
    record {
      after = IsAfter-weaken width 0 r _ (omega arith) (br_bits-IsAfter r width o narrow);
      grows = lo;
      fits = hi;
    }

take_symbol-IsRound :
    (sym total : ℕ) (r : BitReader) (ls : List ℕ) (next : List ℕ × BitReader)
    → IsOpen r
    → length ls < total
    → take_symbol sym total r ls ≡ ok next
    → IsRound total r ls next
unfolding take_symbol
take_symbol-IsRound symbol total r ls next o h e = elim (Bool-cases (ltb symbol 16)) [
  | inl literal ↦ subst (IsRound total r ls) (ok-injective (rw literal at e)) (record {
    after = IsAfter-start r o;
    grows = omega (arith, length-append ls (symbol ∷ []));
    fits = omega (arith, length-append ls (symbol ∷ []));
  })
  | inr special ↦ elim (Bool-cases (symbol == 16)) [
    | inl repeats ↦ elim (Bool-cases (length ls == 0)) [
      | inl none_yet ↦ absurd (err-ne-ok (rw (special, repeats, none_yet) at e))
      | inr some_before ↦
          subst (IsRound total r ls) (ok-injective (rw (special, repeats, some_before) at e))
            (read_run-IsRound 3 2 _ total r ls o (omega arith) (omega arith) h)
    ]
    | inr zero_run ↦ elim (Bool-cases (symbol == 17)) [
      | inl short ↦
          subst (IsRound total r ls) (ok-injective (rw (special, zero_run, short) at e))
            (read_run-IsRound 3 3 0 total r ls o (omega arith) (omega arith) h)
      | inr long ↦
          subst (IsRound total r ls) (ok-injective (rw (special, zero_run, long) at e))
            (read_run-IsRound 11 7 0 total r ls o (omega arith) (omega arith) h)
    ]
  ]
]

lengths_step-IsRound :
    (d : HuffDec) (total : ℕ) (r : BitReader) (ls : List ℕ) (next : List ℕ × BitReader)
    → IsOpen r
    → length ls < total
    → lengths_step d total r ls ≡ ok next
    → IsRound total r ls next
unfolding lengths_step
lengths_step-IsRound d total r ls next o h e =
    let r' = (huff_decode d r).1 in
    let decoded = IsAfter-weaken 1 0 r r' (omega arith) (huff_decode-IsAfter d r o) in
    let (s, _, rest) = >>=-eq-ok (huff_decode d r).0 _ e in
    let (taken, is_taken, last) = >>=-eq-ok (take_symbol s total r' ls) _ rest in
    let round = take_symbol-IsRound s total r' ls taken decoded.opened h is_taken in
    let (_, same) = guard-eq-ok taken.1.underflow input (ok (taken.0, taken.1)) last in
    subst (IsRound total r ls) (ok-injective same) (record {
      after = IsAfter-trans 0 0 r r' taken.1 decoded round.after;
      grows = round.grows;
      fits = round.fits;
    })

-- From no more lengths than the total, with rounds for the rest, if the loop over code lengths
-- succeeds it has exactly the total of lengths, and the reader has gone on or run out.
pub read_lengths_lem :
    (fuel : ℕ) (d : HuffDec) (total : ℕ) (r : BitReader) (ls : List ℕ) (next : List ℕ × BitReader)
    → IsOpen r
    → length ls ≤ total
    → total ≤ length ls + fuel
    → read_lengths fuel d total r ls ≡ ok next
    → (length next.0 ≡ total) × IsAfter 0 r next.1
unfolding read_lengths
read_lengths_lem zero d total r ls next o h enough e =
    subst (λ n. (length n.0 ≡ total) × IsAfter 0 r n.1) (ok-injective e)
      (omega arith, IsAfter-start r o)
read_lengths_lem (suc fuel) d total r ls next o h enough e =
    elim (Bool-cases (ltb (length ls) total)) [
      | inr full ↦
          subst (λ n. (length n.0 ≡ total) × IsAfter 0 r n.1) (ok-injective (rw full at e))
            (omega tests, IsAfter-start r o)
      | inl room ↦
          let (mid, is_mid, rest) = >>=-eq-ok (lengths_step d total r ls) _ (rw room at e) in
          let round = lengths_step-IsRound d total r ls mid o (omega tests) is_mid in
          let (exact, after) =
            read_lengths_lem fuel d total mid.1 mid.0 next round.after.opened round.fits
              (omega (arith, round.grows)) rest in
          (exact, IsAfter-trans 0 0 r mid.1 next.1 round.after after)
    ]

build_pair-IsAfter :
    (s : Scratch) (hlit : ℕ) (ls : List ℕ) (r : BitReader) (next : (HuffDec × HuffDec) × BitReader)
    → build_pair s hlit ls r ≡ ok next
    → next.1 ≡ r
unfolding build_pair
build_pair-IsAfter s hlit ls r next e =
    let (lit, _, rest) = >>=-eq-ok (huff_build_decoder s.lit (take hlit ls)) _ e in
    let (dist, _, last) = >>=-eq-ok (huff_build_decoder s.dist (drop hlit ls)) _ rest in
    ap (λ (n : (HuffDec × HuffDec) × BitReader). n.1) (sym (ok-injective last))

pub read_tables-IsAfter :
    (s : Scratch) (hlit hdist : ℕ) (cl_len : List ℕ) (r : BitReader)
    (next : (HuffDec × HuffDec) × BitReader)
    → IsOpen r
    → read_tables s hlit hdist cl_len r ≡ ok next
    → IsAfter 0 r next.1
unfolding read_tables
read_tables-IsAfter s hlit hdist cl_len r next o e =
    let (cl_dec, _, rest) = >>=-eq-ok (huff_build_decoder s.codelen cl_len) _ e in
    let (taken, is_taken, last) =
      >>=-eq-ok (read_lengths (hlit + hdist) cl_dec (hlit + hdist) r []) _ rest in
    let (_, after) =
      read_lengths_lem (hlit + hdist) cl_dec (hlit + hdist) r [] taken o (omega arith) (omega arith)
        is_taken in
    subst (IsAfter 0 r) (sym (build_pair-IsAfter s hlit taken.0 taken.1 next last)) after

pub read_dynamic_header-IsAfter :
    (s : Scratch) (r : BitReader) (next : (HuffDec × HuffDec) × BitReader)
    → IsOpen r
    → read_dynamic_header s r ≡ ok next
    → IsAfter 0 r next.1
unfolding read_dynamic_header
read_dynamic_header-IsAfter s r next o e =
    let r1 = (br_bits r 5).1 in
    let r2 = (br_bits r1 5).1 in
    let r3 = (br_bits r2 4).1 in
    let one = br_bits-IsAfter r 5 o (omega arith) in
    let two = IsAfter-trans 5 5 r r1 r2 one (br_bits-IsAfter r1 5 one.opened (omega arith)) in
    let three = IsAfter-trans 10 4 r r2 r3 two (br_bits-IsAfter r2 4 two.opened (omega arith)) in
    let codelens = read_codelens ((br_bits r2 4).0 + 4) 0 r3 (zeros 19) in
    let four =
      IsAfter-trans 14 0 r r3 codelens.1 three
        (read_codelens-IsAfter ((br_bits r2 4).0 + 4) 0 r3 (zeros 19) three.opened) in
    let (_, in_range) = guard-eq-ok (ltb 286 ((br_bits r 5).0 + 257)) corrupt _ e in
    let (_, fits) = guard-eq-ok (ltb 30 ((br_bits r1 5).0 + 1)) corrupt _ in_range in
    IsAfter-weaken 14 0 r next.1 (omega arith) (
      IsAfter-trans 14 0 r codelens.1 next.1 four
        (read_tables-IsAfter s _ _ codelens.0 codelens.1 next four.opened fits))
