-- ===== src/Deflate/Bits/Reader.antt =====
-- The bit reader of C-Deflate/src/bits.c takes fields off a stream: what `br_bits` returns and
-- leaves while the input lasts, and that reading past its end sets the flag.
use native.Mathlib.Nat.{one-le-pow, pow-le-pow_right, mod-eq_of_lt}
use foundations_lab.Base.{
  ℕ, zero, suc, ◌+◌, ◌-◌, ◌*◌, ◌^◌, ◌≤◌, ◌<◌, ◌≡◌, refl, ap, ◌∙◌, sym, List, [], ◌∷◌, ◌++◌,
  append_assoc, arith, length, length-append, get_or, drop, drop-eq-cons, All, true, bit_or,
  bit_or_shifted, ltb, leb, tests, Bool-cases, inl, inr, length-drop,
}
use foundations_lab.Deflate.Stream.{lsb, byte_bits, lsb-append, length-lsb, length-byte_bits}
use foundations_lab.Deflate.Bits.{u32, BitReader, refill_zeros, refill_byte, refill, fill}
use foundations_lab.Deflate.Bits.Writer.{shifted_fits}

abbrev pub IsByte : ℕ → Type 0
IsByte b = b < 256

-- What is left to read: the bits in the buffer, then the bytes not yet taken.
abbrev pub pending : BitReader → List ℕ
pending r = lsb r.bit_count r.bit_buf ++ byte_bits (drop r.next r.input)

-- The buffer holds no bits above `bit_count`, and the input consists of bytes.
abbrev pub IsSound : BitReader → Type 0
IsSound r = (r.bit_buf < 2 ^ r.bit_count) × All IsByte r.input

-- Between two calls fewer than eight bits wait.
abbrev pub IsOpen : BitReader → Type 0
IsOpen r = (r.bit_count < 8) × (r.bit_buf < 2 ^ r.bit_count) × All IsByte r.input

byte_at : (i : ℕ) (bs : List ℕ) → All IsByte bs → get_or bs i 0 < 256
byte_at i [] h = omega arith
byte_at zero (b ∷ bs) h = h.0
byte_at (suc i) (b ∷ bs) h = byte_at i bs h.1

-- A byte above the bits in the buffer does not wrap.
load_byte :
    (buf n b : ℕ) → buf < 2 ^ n → n ≤ 24 → b < 256 → bit_or buf (u32 (b * 2 ^ n)) ≡ buf + b * 2 ^ n
load_byte buf n b h k l = ap (bit_or buf) (mod-eq_of_lt no_wrap) ∙ bit_or_shifted n b buf h
  where
    no_wrap : b * 2 ^ n < 2 ^ 32
    no_wrap =
        let bound : 2 ^ (n + 8) ≤ 2 ^ 32 = pow-le-pow_right (omega arith) {j = 32} (omega arith) in
        omega (arith, shifted_fits b 8 n l, one-le-pow n 2)

module _ (r : BitReader) (sound : IsSound r) (shallow : r.bit_count ≤ 24) where
  refill_byte-IsSound : IsSound (refill_byte r)
  unfolding refill_byte
  refill_byte-IsSound =
      let b = get_or r.input r.next 0 in
      let is_byte : b < 256 = byte_at r.next r.input sound.1 in
      (
        omega (
          arith,
          load_byte r.bit_buf r.bit_count b sound.0 shallow is_byte,
          shifted_fits b 8 r.bit_count is_byte,
        ),
        sound.1,
      )

  refill_zeros-IsSound : IsSound (refill_zeros r)
  unfolding refill_zeros
  refill_zeros-IsSound = (
    omega (
      arith,
      load_byte r.bit_buf r.bit_count 0 sound.0 shallow (omega arith),
      shifted_fits 0 8 r.bit_count (omega arith),
    ),
    sound.1,
  )

  pending-refill_byte : r.next < length r.input → pending (refill_byte r) ≡ pending r
  unfolding refill_byte byte_bits
  pending-refill_byte h =
      let b = get_or r.input r.next 0 in
      let n = r.bit_count in
      let rest = byte_bits (drop (r.next + 1) r.input) in
      let after : drop r.next r.input ≡ b ∷ drop (r.next + 1) r.input =
        drop-eq-cons r.next r.input 0 h
        ∙ ap (λ (k : ℕ). b ∷ drop k r.input) {x = suc r.next} {y = r.next + 1} (omega arith) in
      ap (λ (t : ℕ). lsb (n + 8) t ++ rest)
        (load_byte r.bit_buf n b sound.0 shallow (byte_at r.next r.input sound.1))
      ∙ ap (λ (t : List ℕ). t ++ rest) (lsb-append n 8 r.bit_buf b sound.0)
      ∙ append_assoc (lsb n r.bit_buf) (lsb 8 b) rest
      ∙ ap (λ (t : List ℕ). lsb n r.bit_buf ++ byte_bits t) (sym after)

pub length-pending :
    (r : BitReader) → length (pending r) ≡ r.bit_count + 8 * (length r.input - r.next)
length-pending r = omega (
  arith,
  length-append (lsb r.bit_count r.bit_buf) (byte_bits (drop r.next r.input)),
  length-lsb r.bit_count r.bit_buf,
  length-byte_bits (drop r.next r.input),
  length-drop r.next r.input,
)

-- Once set, the flag stays.
pub underflow-fill :
    (fuel n : ℕ) (r : BitReader) → r.underflow ≡ true → (fill fuel n r).underflow ≡ true
unfolding fill
underflow-fill zero n r h = h
underflow-fill (suc fuel) n r h = ground (arith, underflow-fill fuel n (refill r))

-- What the loop of `br_bits` leaves.
pub record IsFilled (n : ℕ) (r r' : BitReader) : Type 0 where
  pub sound : IsSound r'
  pub enough : n ≤ r'.bit_count
  pub short : r'.bit_count ≤ n + 7
  pub same_input : r'.input ≡ r.input
  pub kept : n ≤ length (pending r) → (pending r' ≡ pending r) × (r'.underflow ≡ r.underflow)
  pub ran_out : length (pending r) < n → r'.underflow ≡ true

pub fill_lem :
    (fuel n : ℕ) (r : BitReader)
    → IsSound r
    → n ≤ 24
    → r.bit_count ≤ n + 7
    → n ≤ r.bit_count + 8 * fuel
    → IsFilled n r (fill fuel n r)
unfolding fill
fill_lem zero n r s small short f = record {
  sound = s;
  enough = omega arith;
  short = short;
  same_input = refl;
  kept = λ h. (refl, refl);
  ran_out = λ h. absurd (omega (arith, length-pending r));
}
fill_lem (suc fuel) n r s small short f = elim (Bool-cases (ltb r.bit_count n)) [
  | inr enough ↦ rw enough (record {
    sound = s;
    enough = omega tests;
    short = short;
    same_input = refl;
    kept = λ h. (refl, refl);
    ran_out = λ h. absurd (omega (tests, length-pending r));
  })
  | inl short_of ↦
      let shallow : r.bit_count < n = omega tests in
      elim (Bool-cases (leb (length r.input) r.next)) [
        | inl empty ↦
            rw (short_of, empty)
              (after_zeros shallow (omega tests) (
                fill_lem fuel n (refill_zeros r) (refill_zeros-IsSound r s (omega arith)) small
                  (omega arith) (omega arith)))
        | inr more ↦
            rw (short_of, more)
              (after_byte shallow (omega tests) (
                fill_lem fuel n (refill_byte r) (refill_byte-IsSound r s (omega arith)) small
                  (omega arith) (omega arith)))
      ]
]
  where
    after_zeros :
        r.bit_count < n
        → length r.input ≤ r.next
        → IsFilled n (refill_zeros r) (fill fuel n (refill_zeros r))
        → IsFilled n r (fill fuel n (refill_zeros r))
    after_zeros shallow empty rest = record {
      sound = rest.sound;
      enough = rest.enough;
      short = rest.short;
      same_input = rest.same_input;
      kept = λ h. absurd (omega (arith, length-pending r));
      ran_out = λ h. underflow-fill fuel n (refill_zeros r) refl;
    }

    after_byte :
        r.bit_count < n
        → r.next < length r.input
        → IsFilled n (refill_byte r) (fill fuel n (refill_byte r))
        → IsFilled n r (fill fuel n (refill_byte r))
    after_byte shallow more rest =
        let same = pending-refill_byte r s (omega arith) more in
        record {
          sound = rest.sound;
          enough = rest.enough;
          short = rest.short;
          same_input = rest.same_input;
          kept = λ h. let (p, u) = rest.kept (rw same h) in (p ∙ same, u);
          ran_out = λ h. rest.ran_out (rw same h);
        }
