-- ===== src/Deflate/Bits/Fields.antt =====
-- `br_bits` and `br_align` of C-Deflate/src/bits.c on the stream of pending bits.
use native.Mathlib.Nat.{one-le-pow}
use foundations_lab.Base.{
  ℕ, ◌+◌, ◌-◌, ◌*◌, ◌/◌, ◌%◌, ◌^◌, ◌≤◌, ◌<◌, ◌≡◌, refl, ap, ◌∙◌, sym, List, ◌++◌, append_assoc,
  arith, length, length-append, drop, true, bit_and, bit_and_ones, div-lt_two_pow, if◌then◌else◌,
  ◌==◌, ne→==, tests, Bool-cases, inl, inr,
}
use foundations_lab.Deflate.Stream.{
  lsb, byte_bits, lsb-split, lsb-injective, length-lsb, length-byte_bits,
}
use foundations_lab.Deflate.Bits.{BitReader, fill, br_bits, br_align}
use foundations_lab.Deflate.Bits.Reader.{pending, IsOpen, IsFilled, fill_lem}

mask_lem : (v n : ℕ) → n ≤ 24 → bit_and v (if n == 32 then 0xffffffff else 2 ^ n - 1) ≡ v % 2 ^ n
mask_lem v n h = rw (ne→== n 32 (omega arith)) (bit_and_ones n v)

filled : (r : BitReader) (n : ℕ) → IsOpen r → n ≤ 24 → IsFilled n r (fill n n r)
filled r n o h = fill_lem n n r (o.1, o.2) h (omega arith) (omega arith)

-- `br_bits` returns a number of `n` bits, and leaves fewer than eight bits in the buffer, whether or
-- not the input lasted.
pub br_bits-IsOpen :
    (r : BitReader) (n : ℕ)
    → IsOpen r
    → n ≤ 24
    → IsOpen (br_bits r n).1 × ((br_bits r n).0 < 2 ^ n) × ((br_bits r n).1.input ≡ r.input)
unfolding br_bits
br_bits-IsOpen r n o h =
    let f = filled r n o h in
    let buf = (fill n n r).bit_buf in
    (
      (
        omega (arith, f.short),
        div-lt_two_pow buf n (fill n n r).bit_count f.enough f.sound.0,
        f.sound.1,
      ),
      rw (mask_lem buf n h) (omega (arith, one-le-pow n 2)),
      f.same_input,
    )

-- On an open reader with enough bits left, `br_bits` of up to 24 bits returns the next field of
-- the stream, leaves the rest, and keeps the flag.
pub br_bits_splits :
    (r : BitReader) (n : ℕ)
    → IsOpen r
    → n ≤ 24
    → n ≤ length (pending r)
    → (pending r ≡ lsb n (br_bits r n).0 ++ pending (br_bits r n).1)
      × ((br_bits r n).1.underflow ≡ r.underflow)
unfolding br_bits
br_bits_splits r n o h k =
    let f = filled r n o h in
    let r' = fill n n r in
    let m = r'.bit_count - n in
    let later = byte_bits (drop r'.next r'.input) in
    let whole : n + m ≡ r'.bit_count = omega (arith, f.enough) in
    let split : lsb r'.bit_count r'.bit_buf
        ≡ lsb n (r'.bit_buf % 2 ^ n) ++ lsb m (r'.bit_buf / 2 ^ n) =
      ap (λ (t : ℕ). lsb t r'.bit_buf) (sym whole) ∙ lsb-split n m r'.bit_buf in
    (
      sym (f.kept k).0
          ∙ ap (λ (t : List ℕ). t ++ later) split
          ∙ append_assoc (lsb n (r'.bit_buf % 2 ^ n)) (lsb m (r'.bit_buf / 2 ^ n)) later
          ∙ ap (λ (t : ℕ). lsb n t ++ (lsb m (r'.bit_buf / 2 ^ n) ++ later))
              (sym (mask_lem r'.bit_buf n h)),
      (f.kept k).1,
    )

-- On an open reader with too few bits left, `br_bits` of up to 24 bits sets the flag.
pub br_bits_underflow :
    (r : BitReader) (n : ℕ)
    → IsOpen r
    → n ≤ 24
    → length (pending r) < n
    → (br_bits r n).1.underflow ≡ true
unfolding br_bits
br_bits_underflow r n o h k = (filled r n o h).ran_out k

-- A field that stands next in the stream is read back, and the reader goes on behind it.
pub record IsRead (r : BitReader) (n v : ℕ) (rest : List ℕ) : Type 0 where
  pub value : (br_bits r n).0 ≡ v
  pub left : pending (br_bits r n).1 ≡ rest
  pub opened : IsOpen (br_bits r n).1
  pub same_flag : (br_bits r n).1.underflow ≡ r.underflow

pub br_bits_reads :
    (r : BitReader) (n v : ℕ) (rest : List ℕ)
    → IsOpen r
    → n ≤ 24
    → v < 2 ^ n
    → pending r ≡ lsb n v ++ rest
    → IsRead r n v rest
br_bits_reads r n v rest o h fits e =
    let enough : n ≤ length (pending r) =
      omega (arith, ap length e, length-append (lsb n v) rest, length-lsb n v) in
    let (split, flag) = br_bits_splits r n o h enough in
    let (opened, small, _) = br_bits-IsOpen r n o h in
    let (same, tail) =
      lsb-injective n (br_bits r n).0 v (pending (br_bits r n).1) rest small fits (sym split ∙ e) in
    record { value = same; left = tail; opened = opened; same_flag = flag }

-- On an open reader `br_align` leaves exactly the bytes not yet taken, an open reader, and the
-- flag as it was.
pub br_align_drops :
    (r : BitReader)
    → IsOpen r
    → (pending (br_align r) ≡ byte_bits (drop r.next r.input))
      × IsOpen (br_align r)
      × ((br_align r).underflow ≡ r.underflow)
unfolding br_align lsb
br_align_drops r o =
    let part : bit_and r.bit_count 7 ≡ r.bit_count = omega (arith, bit_and_ones 3 r.bit_count) in
    elim (Bool-cases (bit_and r.bit_count 7 == 0)) [
      | inl aligned ↦
          let none_left : r.bit_count ≡ 0 = omega tests in
          rw aligned
            (ap (λ (k : ℕ). lsb k r.bit_buf ++ byte_bits (drop r.next r.input)) none_left, o, refl)
      | inr some_bits ↦
          let rest = byte_bits (drop r.next r.input) in
          let read = br_bits_reads r r.bit_count r.bit_buf rest o (omega (arith, o.0)) o.1 refl in
          rw (some_bits, part) (read.left, read.opened, read.same_flag)
    ]

-- Before a padding of less than a byte, with whole bytes behind it, `br_align` skips the padding.
pub br_align_skips :
    (r : BitReader) (p m : ℕ) (rest : List ℕ)
    → IsOpen r
    → p < 8
    → length rest ≡ 8 * m
    → pending r ≡ lsb p 0 ++ rest
    → pending (br_align r) ≡ rest
br_align_skips r p m rest o small whole e =
    let later = byte_bits (drop r.next r.input) in
    let same : r.bit_count ≡ p = omega (
      arith,
      ap length e,
      length-append (lsb r.bit_count r.bit_buf) later,
      length-append (lsb p 0) rest,
      length-lsb r.bit_count r.bit_buf,
      length-lsb p 0,
      length-byte_bits (drop r.next r.input),
      o.0,
    ) in
    let padded : lsb r.bit_count r.bit_buf ++ later ≡ lsb r.bit_count 0 ++ rest =
      e ∙ ap (λ (n : ℕ). lsb n 0 ++ rest) (sym same) in
    (br_align_drops r o).0
    ∙ (lsb-injective r.bit_count r.bit_buf 0 later rest o.1
        (omega (arith, one-le-pow r.bit_count 2)) padded).1
