-- ===== src/Deflate/Bits/Progress.antt =====
-- How `br_bits`, `br_align` of C-Deflate/src/bits.c and `huff_decode` of C-Deflate/src/huffman.c use
-- up the stream, whatever it holds.
use foundations_lab.Base.{
  ℕ, ◌+◌, ◌≤◌, ◌≡◌, ◌⊎◌, inl, inr, refl, ap, ◌∙◌, arith, length, length-append, true, leb, bit_and,
  bit_and_ones, ◌==◌, Bool-cases, tests,
}
use foundations_lab.Deflate.Stream.{lsb, length-lsb}
use foundations_lab.Deflate.Bits.{BitReader, br_bits, br_align}
use foundations_lab.Deflate.Bits.Reader.{pending, IsOpen, underflow-fill}
use foundations_lab.Deflate.Bits.Fields.{br_bits-IsOpen, br_bits_splits, br_bits_underflow}

-- The reader `s` stands `n` bits or more behind `r`, or has run out.
pub record IsAfter (n : ℕ) (r s : BitReader) : Type 0 where
  pub opened : IsOpen s
  pub same_input : s.input ≡ r.input
  pub sticky : r.underflow ≡ true → s.underflow ≡ true
  pub spent : (s.underflow ≡ true) ⊎ (length (pending s) + n ≤ length (pending r))

pub IsAfter-start : (r : BitReader) → IsOpen r → IsAfter 0 r r
IsAfter-start r o = record {
  opened = o;
  same_input = refl;
  sticky = λ u. u;
  spent = inr (omega arith);
}

pub IsAfter-trans :
    (n m : ℕ) (r s t : BitReader) → IsAfter n r s → IsAfter m s t → IsAfter (n + m) r t
IsAfter-trans n m r s t a b = record {
  opened = b.opened;
  same_input = b.same_input ∙ a.same_input;
  sticky = λ u. b.sticky (a.sticky u);
  spent = elim a.spent [
    | inl u ↦ inl (b.sticky u)
    | inr k ↦ elim b.spent [ inl u ↦ inl u | inr l ↦ inr (omega arith) ]
  ];
}

pub IsAfter-weaken : (n m : ℕ) (r s : BitReader) → m ≤ n → IsAfter n r s → IsAfter m r s
IsAfter-weaken n m r s h a = record {
  opened = a.opened;
  same_input = a.same_input;
  sticky = a.sticky;
  spent = elim a.spent [ inl u ↦ inl u | inr k ↦ inr (omega arith) ];
}

br_bits-sticky : (r : BitReader) (n : ℕ) → r.underflow ≡ true → (br_bits r n).1.underflow ≡ true
unfolding br_bits
br_bits-sticky r n u = underflow-fill n n r u

-- Every read takes its bits or sets the flag.
pub br_bits-IsAfter : (r : BitReader) (n : ℕ) → IsOpen r → n ≤ 24 → IsAfter n r (br_bits r n).1
br_bits-IsAfter r n o h =
    let (opened, _, same) = br_bits-IsOpen r n o h in
    record {
      opened = opened;
      same_input = same;
      sticky = br_bits-sticky r n;
      spent = elim (Bool-cases (leb n (length (pending r)))) [
        | inl enough ↦ inr (takes (omega tests))
        | inr short ↦ inl (br_bits_underflow r n o h (omega tests))
      ];
    }
  where
    takes : n ≤ length (pending r) → length (pending (br_bits r n).1) + n ≤ length (pending r)
    takes k =
        let e = (br_bits_splits r n o h k).0 in
        omega (
          arith,
          ap length e,
          length-append (lsb n (br_bits r n).0) (pending (br_bits r n).1),
          length-lsb n (br_bits r n).0,
        )

pub br_align-IsAfter : (r : BitReader) → IsOpen r → IsAfter 0 r (br_align r)
unfolding br_align
br_align-IsAfter r o = elim (Bool-cases (bit_and r.bit_count 7 == 0)) [
  | inl aligned ↦ rw aligned (IsAfter-start r o)
  | inr some_bits ↦ rw some_bits (
      IsAfter-weaken (bit_and r.bit_count 7) 0 r (br_bits r (bit_and r.bit_count 7)).1 (omega arith)
        (br_bits-IsAfter r (bit_and r.bit_count 7) o (small r.bit_count)))
]
  where
    small : (n : ℕ) → bit_and n 7 ≤ 24
    small n = omega (arith, bit_and_ones 3 n)
