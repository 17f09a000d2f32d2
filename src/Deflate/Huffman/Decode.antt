-- ===== src/Deflate/Huffman/Decode.antt =====
-- `huff_build_decoder` and `huff_decode` of C-Deflate/src/huffman.c read back the codes that
-- `huff_assign_codes` gives out.
use native.Mathlib.Nat.{pow-suc, one-le-pow, le-div_iff_mul-le, div-div-eq-div-mul, div-eq_of_lt}
use foundations_lab.Base.{
  ℕ, zero, suc, ◌+◌, ◌-◌, ◌*◌, ◌/◌, ◌%◌, ◌^◌, ◌≤◌, ◌<◌, ◌≡◌, ◌≢◌, refl, subst, ap, ◌∙◌, sym, List,
  ◌∷◌, ◌++◌, arith, get_or, set, take, length, get_or-set_self, get_or-set_ne, All, bit_or_bit,
  ◌==◌, ==→eq, ==→ne, lt→ltb, le→ltb, Bool-cases, inl, inr,
}
use foundations_lab.Deflate.Stream.{lsb, msb}
use foundations_lab.Deflate.Status.{Result, ok, err, corrupt, ok-injective, >>=-eq-ok}
use foundations_lab.Deflate.Bits.{BitReader, br_bits}
use foundations_lab.Deflate.Bits.Reader.{pending, IsOpen}
use foundations_lab.Deflate.Bits.Fields.{IsRead, br_bits_reads}
use foundations_lab.Deflate.Huffman.{
  HuffDec, zeros, count_checked, is_not_oversubscribed, sum_offsets, fill_decoder,
  huff_build_decoder, decode_loop, huff_decode, huff_assign_codes,
}
use foundations_lab.Deflate.Huffman.Count.{
  count, count_below, count_below-suc, count_below-one, count-take-lt, IsLength, IsLength-at,
  IsTally, count_checked-IsTally, get_or-zeros, length-zeros,
}
use foundations_lab.Deflate.Huffman.Kraft.{
  used, first_code, first_code-next, first_code_grows, IsKraft, is_not_oversubscribed-IsKraft_iff,
}
use foundations_lab.Deflate.Huffman.Codes.{huff_assign_codes_lem}
use foundations_lab.Deflate.Huffman.Symbols.{symbols_lem}

-- What a decoder built from `ls` holds.
pub record IsDecoderOf (ls : List ℕ) (d : HuffDec) : Type 0 where
  pub small : All IsLength ls
  pub kraft : IsKraft ls
  pub counts : (m : ℕ) → get_or d.counts m 0 ≡ used m ls
  pub symbols :
      (q : ℕ)
      → q < length ls
      → get_or ls q 0 ≢ 0
      → get_or d.symbols (count_below (get_or ls q 0) ls + count (get_or ls q 0) (take q ls)) 0 ≡ q

used_pos : (m : ℕ) (ls : List ℕ) → 0 < m → used m ls ≡ count m ls
unfolding used
used_pos m ls h = ground arith

-- `counts[0] = 0` after the counting loop.
pub cleared : (ls c : List ℕ) (m : ℕ) → IsTally ls (zeros 16) c → get_or (set c 0 0) m 0 ≡ used m ls
unfolding used
cleared ls c m t = elim (Bool-cases (m == 0)) [
  | inl zeroth ↦
      rw (zeroth, ==→eq m 0 zeroth)
        (get_or-set_self c 0 0 0 (omega (arith, t.sized, length-zeros 16)))
  | inr above ↦ rw above (
      get_or-set_ne c 0 m 0 0 (λ e. ==→ne m 0 above (sym e))
      ∙ t.counted m
      ∙ omega (arith, get_or-zeros 16 m))
]

fill_decoder_lem :
    (d d' : HuffDec) (ls c : List ℕ)
    → length ls < 2 ^ 15
    → length ls ≤ length d.symbols
    → IsTally ls (zeros 16) c
    → fill_decoder d ls (set c 0 0) ≡ ok d'
    → IsDecoderOf ls d'
unfolding fill_decoder
fill_decoder_lem d d' ls c short room t e =
    let counts = set c 0 0 in
    let same = λ (m : ℕ). cleared ls c m t in
    let offsets = sum_offsets 15 1 counts (zeros 17) in
    elim (Bool-cases (is_not_oversubscribed 15 1 1 counts)) [
      | inl fits ↦ subst (IsDecoderOf ls) (ok-injective (rw fits at e)) (record {
        small = t.small;
        kraft = (is_not_oversubscribed-IsKraft_iff counts ls same).0 fits;
        counts = same;
        symbols = λ q h used_at.
            symbols_lem ls counts d.symbols q t.small (λ m lo. same m ∙ used_pos m ls lo)
              (omega arith) room h used_at;
      })
      | inr over ↦ absurd (refused (rw over at e))
    ]
  where
    refused : err corrupt ≡ ok d' → ⊥
    refused h = cc

pub huff_build_decoder_lem :
    (d d' : HuffDec) (ls : List ℕ)
    → length ls < 2 ^ 15
    → length ls ≤ length d.symbols
    → huff_build_decoder d ls ≡ ok d'
    → IsDecoderOf ls d'
unfolding huff_build_decoder
huff_build_decoder_lem d d' ls short room e =
    let (c, counted, filled) = >>=-eq-ok (count_checked ls (zeros 16)) _ e in
    let tally =
      count_checked-IsTally ls (zeros 16) c (length-zeros 16)
        (λ m k. omega (arith, get_or-zeros 16 m)) counted in
    fill_decoder_lem d d' ls c short room tally filled

-- One round of the decoding loop reads the next bit of the code.
one_bit :
    (r : BitReader) (c j : ℕ) (rest : List ℕ)
    → IsOpen r
    → pending r ≡ msb (suc j) c ++ rest
    → IsRead r 1 (c / 2 ^ j % 2) (msb j c ++ rest)
unfolding lsb msb
one_bit r c j rest o e =
    br_bits_reads r 1 (c / 2 ^ j % 2) (msb j c ++ rest) o (omega arith) (omega arith)
      (e ∙ ap (λ (t : ℕ). t ∷ (msb j c ++ rest)) (omega arith))

-- What `huff_decode` returns, and the reader it leaves.
pub record Decodes (r : BitReader) (symbol : ℕ) (rest : List ℕ) (result : Result ℕ × BitReader)
    : Type 0 where
  pub symbol_is : result.0 ≡ ok symbol
  pub left : pending result.1 ≡ rest
  pub opened : IsOpen result.1
  pub same_flag : result.1.underflow ≡ r.underflow

Decodes-after :
    (r r' : BitReader) (symbol : ℕ) (rest : List ℕ) (result : Result ℕ × BitReader)
    → r'.underflow ≡ r.underflow
    → Decodes r' symbol rest result
    → Decodes r symbol rest result
Decodes-after r r' symbol rest result flag d = record {
  symbol_is = d.symbol_is;
  left = d.left;
  opened = d.opened;
  same_flag = d.same_flag ∙ flag;
}

-- A round that finds the code among those of its length, and one that does not.
module _ (d : HuffDec) (rounds len a b first index : ℕ) (r : BitReader) (bit : (br_bits r 1).0 ≡ b)
    (b_bit : b < 2) where
  decode_hit :
      a * 2 + b < first + get_or d.counts len 0
      → decode_loop d (suc rounds) len (a * 2) first index r
        ≡ (ok (get_or d.symbols (index + (a * 2 + b - first)) 0), (br_bits r 1).1)
  unfolding decode_loop
  decode_hit h = rw (bit, bit_or_bit a b b_bit, lt→ltb _ _ h)

  decode_miss :
      first + get_or d.counts len 0 ≤ a * 2 + b
      → decode_loop d (suc rounds) len (a * 2) first index r
        ≡ decode_loop d rounds
            (len + 1)
            ((a * 2 + b) * 2)
            ((first + get_or d.counts len 0) * 2)
            (index + get_or d.counts len 0)
            (br_bits r 1).1
  unfolding decode_loop
  decode_miss h = rw (bit, bit_or_bit a b b_bit, le→ltb _ _ h)

take_bit : (c j : ℕ) → c / 2 ^ suc j * 2 + c / 2 ^ j % 2 ≡ c / 2 ^ j
take_bit c j = omega (arith, ap (λ (t : ℕ). c / t) (pow-suc 2 j), div-div-eq-div-mul c (2 ^ j) 2)

-- `c` is a code of length `l`, whose bits from `j` down are still to be read.
decode_loop_lem :
    (j rounds len l c symbol : ℕ) (ls rest : List ℕ) (d : HuffDec) (r : BitReader)
    → IsDecoderOf ls d
    → IsOpen r
    → pending r ≡ msb (suc j) c ++ rest
    → suc j ≤ rounds
    → 0 < len
    → len + j ≡ l
    → first_code ls l ≤ c
    → c < first_code ls l + used l ls
    → get_or d.symbols (count_below l ls + (c - first_code ls l)) 0 ≡ symbol
    → Decodes r symbol rest
        (decode_loop d rounds len (c / 2 ^ suc j * 2) (first_code ls len) (count_below len ls) r)
decode_loop_lem j zero len l c symbol ls rest d r dec o e f pos at lo hi s = absurd (omega arith)
decode_loop_lem zero (suc rounds) len l c symbol ls rest d r dec o e f pos at lo hi s =
    let read = one_bit r c 0 rest o e in
    let here : len ≡ l = omega arith in
    let whole : c / 2 ^ 1 * 2 + c / 2 ^ 0 % 2 ≡ c = omega arith in
    rw
      (
        here,
        decode_hit d rounds l (c / 2 ^ 1) (c / 2 ^ 0 % 2) (first_code ls l) (count_below l ls) r
            read.value (omega arith) (omega (arith, dec.counts l)),
        whole,
      )
      (record {
        symbol_is = ap ok s;
        left = unfold msb in read.left;
        opened = read.opened;
        same_flag = read.same_flag;
      })
decode_loop_lem (suc j) (suc rounds) len l c symbol ls rest d r dec o e f pos at lo hi s =
    let read = one_bit r c (suc j) rest o e in
    let n = get_or d.counts len 0 in
    let above : first_code ls len + n ≤ c / 2 ^ suc j =
      (le-div_iff_mul-le (one-le-pow (suc j) 2 (omega arith))).1 (
        omega (
          arith,
          first_code_grows ls len j,
          ap (first_code ls) at,
          ap (λ (t : ℕ). t * 2 ^ suc j) (dec.counts len),
        )) in
    let first : (first_code ls len + n) * 2 ≡ first_code ls (len + 1) =
      omega (arith, dec.counts len, first_code-next ls len) in
    let index : count_below len ls + n ≡ count_below (len + 1) ls =
      omega (arith, dec.counts len, used_pos len ls pos, count_below-suc len ls pos) in
    rw
      (
        decode_miss d rounds len (c / 2 ^ suc (suc j)) (c / 2 ^ suc j % 2) (first_code ls len)
            (count_below len ls) r read.value (omega arith) (omega (arith, take_bit c (suc j))),
        take_bit c (suc j),
        first,
        index,
      )
      (Decodes-after r (br_bits r 1).1 symbol rest _ read.same_flag (
        decode_loop_lem j rounds (len + 1) l c symbol ls rest d (br_bits r 1).1 dec read.opened
          read.left (omega arith) (omega arith) (omega arith) lo hi s))

huff_decode_from :
    (j c symbol : ℕ) (ls rest : List ℕ) (d : HuffDec) (r : BitReader)
    → IsDecoderOf ls d
    → IsOpen r
    → suc j ≤ 15
    → pending r ≡ msb (suc j) c ++ rest
    → first_code ls (suc j) ≤ c
    → c < first_code ls (suc j) + used (suc j) ls
    → get_or d.symbols (count_below (suc j) ls + (c - first_code ls (suc j))) 0 ≡ symbol
    → Decodes r symbol rest (huff_decode d r)
unfolding huff_decode first_code used
huff_decode_from j c symbol ls rest d r dec o small e lo hi s =
    let fits : c < 2 ^ suc j = omega (arith, dec.kraft (suc j) small) in
    let nothing : c / 2 ^ suc j * 2 ≡ 0 = omega (arith, div-eq_of_lt fits) in
    let none_below : count_below 1 ls ≡ 0 = count_below-one ls in
    rw (nothing, none_below) at
      (decode_loop_lem j 15 1 (suc j) c symbol ls rest d r dec o e small (omega arith) (omega arith)
        lo hi s)

-- A decoder of `ls` reads the code of a used symbol back.
pub IsDecoderOf-Decodes :
    (ls : List ℕ) (symbol l : ℕ) (d : HuffDec) (r : BitReader) (rest : List ℕ)
    → length ls < 2 ^ 15
    → IsDecoderOf ls d
    → symbol < length ls
    → get_or ls symbol 0 ≡ l
    → l ≢ 0
    → IsOpen r
    → pending r ≡ msb l (get_or (huff_assign_codes ls) symbol 0) ++ rest
    → Decodes r symbol rest (huff_decode d r)
IsDecoderOf-Decodes ls symbol zero d r rest short dec h at in_use o e = absurd (in_use refl)
IsDecoderOf-Decodes ls symbol (suc j) d r rest short dec h at in_use o e =
    let used_at : get_or ls symbol 0 ≢ 0 = λ z. in_use (sym at ∙ z) in
    let rank = count (suc j) (take symbol ls) in
    let code : get_or (huff_assign_codes ls) symbol 0 ≡ first_code ls (suc j) + rank =
      rw at at (huff_assign_codes_lem ls symbol dec.small dec.kraft short h used_at) in
    let below : rank < count (suc j) ls = rw at at (count-take-lt ls symbol h) in
    let place : get_or d.symbols (count_below (suc j) ls + rank) 0 ≡ symbol =
      rw at at (dec.symbols symbol h used_at) in
    huff_decode_from j (get_or (huff_assign_codes ls) symbol 0) symbol ls rest d r dec o
      (omega (arith, IsLength-at ls symbol dec.small)) e (omega arith)
      (omega (arith, used_pos (suc j) ls (omega arith)))
      (ap (λ (t : ℕ). get_or d.symbols (count_below (suc j) ls + t) 0) {y = rank} (omega arith)
        ∙ place)

-- Where the code that `huff_assign_codes` gives a used symbol stands next in the stream,
-- `huff_decode` with the decoder built from the same lengths, fewer than 2 ^ 15 and no more than
-- its table holds, returns the symbol and goes on behind the code.
pub huff_decode-huff_assign_codes :
    (d d' : HuffDec) (ls : List ℕ) (symbol : ℕ) (r : BitReader) (rest : List ℕ)
    → length ls < 2 ^ 15
    → length ls ≤ length d.symbols
    → huff_build_decoder d ls ≡ ok d'
    → symbol < length ls
    → get_or ls symbol 0 ≢ 0
    → IsOpen r
    → pending r ≡ msb (get_or ls symbol 0) (get_or (huff_assign_codes ls) symbol 0) ++ rest
    → Decodes r symbol rest (huff_decode d' r)
huff_decode-huff_assign_codes d d' ls symbol r rest short room built h in_use o e =
    IsDecoderOf-Decodes ls symbol (get_or ls symbol 0) d' r rest short
      (huff_build_decoder_lem d d' ls short room built) h refl in_use o e
