-- ===== src/Deflate/Bits/Code.antt =====
-- `bw_code` and `bw_align` of C-Deflate/src/bits.c: a Huffman code goes out with its highest bit
-- first, and the padding up to the next byte is zero bits.
use native.Mathlib.Nat.{add-zero, zero-add, pow-le-pow_right}
use foundations_lab.Base.{
  ℕ, zero, suc, ◌+◌, ◌-◌, ◌*◌, ◌/◌, ◌%◌, ◌^◌, ◌≤◌, ◌<◌, ◌≡◌, refl, ap, ap₂, ◌∙◌, sym, List, ◌∷◌,
  ◌++◌, append-nil, arith, length, length-append, bit_and, bit_or, bit_and-one, bit_or_bit,
  two_pow-add, ltb, false, tests, Bool-cases, inl, inr,
}
use foundations_lab.Deflate.Stream.{lsb, msb, byte_bits, length-lsb, length-byte_bits}
use foundations_lab.Deflate.Bits.{
  u32, BitWriter, pos, bw_bits, reverse_code, bw_code, bw_align, bw_finish,
}
use foundations_lab.Deflate.Bits.Writer.{written, IsReady, bw_bits_appends}

reverse_step :
    (i code acc : ℕ)
    → acc < 2 ^ i
    → i ≤ 31
    → bit_or (u32 (acc * 2)) (bit_and (code / 2 ^ i) 1) ≡ acc * 2 + code / 2 ^ i % 2
reverse_step i code acc h b =
    let bound : 2 ^ i ≤ 2 ^ 31 = pow-le-pow_right (omega arith) {j = 31} b in
    ap₂ bit_or {y = acc * 2} (omega arith) (bit_and-one (code / 2 ^ i))
    ∙ bit_or_bit acc (code / 2 ^ i % 2) (omega arith)

lsb_push : (i b acc : ℕ) → b < 2 → lsb (i + 1) (acc * 2 + b) ≡ b ∷ lsb i acc
unfolding lsb
lsb_push i b acc h =
    ap (λ (k : ℕ). lsb k (acc * 2 + b)) {x = i + 1} {y = suc i} (omega arith)
    ∙ ap₂ ◌∷◌ (omega arith) (ap (lsb i) (omega arith))

msb_push : (i code : ℕ) → msb (i + 1) code ≡ (code / 2 ^ i % 2) ∷ msb i code
unfolding msb
msb_push i code = ap (λ (k : ℕ). msb k code) {x = i + 1} {y = suc i} (omega arith)

-- The reversed code so far: its bits from the lowest are the code's bits from `i - 1` down to 0.
reverse_code_lem :
    (left i code acc : ℕ)
    → acc < 2 ^ i
    → i + left ≤ 31
    → lsb i acc ≡ msb i code
    → lsb (i + left) (reverse_code left i code acc) ≡ msb (i + left) code
unfolding reverse_code
reverse_code_lem zero i code acc h b e = rw (add-zero, e)
reverse_code_lem (suc left) i code acc h b e =
    let next = acc * 2 + code / 2 ^ i % 2 in
    let next_fits : next < 2 ^ (i + 1) = omega (arith, two_pow-add i 1) in
    let next_bits : lsb (i + 1) next ≡ msb (i + 1) code =
      lsb_push i (code / 2 ^ i % 2) acc (omega arith)
      ∙ ap (λ (t : List ℕ). (code / 2 ^ i % 2) ∷ t) e
      ∙ sym (msb_push i code) in
    let regroup : i + suc left ≡ i + 1 + left = omega arith in
    rw (reverse_step i code acc h (omega arith), regroup)
      (reverse_code_lem left (i + 1) code next next_fits (omega arith) next_bits)

-- `bw_code` turns the code round before it calls `bw_bits`.
reverse_code_bits : (n code : ℕ) → n ≤ 24 → lsb n (reverse_code n 0 code 0) ≡ msb n code
unfolding lsb msb
reverse_code_bits n code h =
    rw zero-add at (reverse_code_lem n 0 code 0 (omega arith) (omega arith) refl)

pub length-written : (w : BitWriter) → length (written w) ≡ 8 * pos w + w.bit_count
length-written w = omega (
  arith,
  length-append (byte_bits w.out) (lsb w.bit_count w.bit_buf),
  length-byte_bits w.out,
  length-lsb w.bit_count w.bit_buf,
)

-- To a ready writer with room, `bw_code` appends the low bits of the code, up to 24, the highest
-- first, and leaves it ready with the same buffer.
pub bw_code_appends :
    (w : BitWriter) (code n : ℕ)
    → IsReady w
    → n ≤ 24
    → pos w + (w.bit_count + n) / 8 ≤ w.cap
    → IsReady (bw_code w code n)
      × (written (bw_code w code n) ≡ written w ++ msb n code)
      × ((bw_code w code n).cap ≡ w.cap)
unfolding bw_code
bw_code_appends w code n ready narrow room =
    let (r, e, c) = bw_bits_appends w (reverse_code n 0 code 0) n ready narrow room in
    (r, e ∙ ap (λ (t : List ℕ). written w ++ t) (reverse_code_bits n code narrow), c)

-- What `bw_align` leaves: zero bits up to the next byte, and no bit waiting.
pub bw_align_pads :
    (w : BitWriter)
    → IsReady w
    → pos w + (w.bit_count + 7) / 8 ≤ w.cap
    → IsReady (bw_align w)
      × ((bw_align w).bit_count ≡ 0)
      × (written (bw_align w) ≡ written w ++ lsb ((8 - w.bit_count) % 8) 0)
      × ((bw_align w).cap ≡ w.cap)
unfolding bw_align lsb
bw_align_pads w ready room = elim (Bool-cases (ltb 0 w.bit_count)) [
  | inl some_bits ↦
      let n = w.bit_count in
      let (r, e, c) = bw_bits_appends w 0 (8 - n) ready (omega arith) (omega tests) in
      let pad : 8 - n ≡ (8 - n) % 8 = omega tests in
      let aligned : (bw_bits w 0 (8 - n)).bit_count ≡ 0 = omega (
        tests,
        length-written w,
        length-written (bw_bits w 0 (8 - n)),
        ap length e,
        length-append (written w) (lsb (8 - n) 0),
        length-lsb (8 - n) 0,
      ) in
      rw some_bits (r, aligned, e ∙ ap (λ (k : ℕ). written w ++ lsb k 0) pad, c)
  | inr no_bits ↦
      let none_left : w.bit_count ≡ 0 = omega tests in
      let nothing : (8 - w.bit_count) % 8 ≡ 0 = omega arith in
      rw (no_bits, nothing) (ready, none_left, sym (append-nil (written w)), refl)
]

-- `bw_finish` on a ready writer with room for the last byte leaves the flag clear, and bytes that
-- are the bits written, padded with zero bits.
pub bw_finish_bits :
    (w : BitWriter)
    → IsReady w
    → pos w + (w.bit_count + 7) / 8 ≤ w.cap
    → ((bw_finish w).overflow ≡ false)
      × (byte_bits (bw_finish w).out ≡ written w ++ lsb ((8 - w.bit_count) % 8) 0)
unfolding bw_finish lsb
bw_finish_bits w ready room =
    let a = bw_align w in
    let (r, aligned, padded, _) = bw_align_pads w ready room in
    (
      r.2,
      sym (append-nil (byte_bits a.out))
          ∙ ap (λ (k : ℕ). byte_bits a.out ++ lsb k a.bit_buf) (sym aligned)
          ∙ padded,
    )
