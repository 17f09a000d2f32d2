-- ===== src/Deflate/Bits/Appends.antt =====
-- The writer of C-Deflate/src/bits.c as a stream: what a sequence of calls appends.
use foundations_lab.Base.{
  ℕ, ◌+◌, ◌-◌, ◌*◌, ◌%◌, ◌≤◌, ◌≡◌, refl, sym, ap, ◌∙◌, arith, List, ◌++◌, append_assoc, append-nil,
  length, length-append, All, All-append, zero, suc, [], ◌∷◌, bit_and, bit_and_ones, ltb, leb,
  Bool-cases, inl, inr,
}
use foundations_lab.Deflate.Stream.{lsb, msb}
use foundations_lab.Deflate.Bits.{BitWriter, pos, put_byte, flush, bw_bits, bw_code, bw_align}
use foundations_lab.Deflate.Bits.Writer.{written, IsReady, bw_bits_appends}
use foundations_lab.Deflate.Bits.Code.{bw_code_appends, bw_align_pads, length-written}
use foundations_lab.Deflate.Bits.Reader.{IsByte}

put_byte-IsByte : (w : BitWriter) → All IsByte w.out → All IsByte (put_byte w).out
unfolding put_byte
put_byte-IsByte w h =
    All-append IsByte w.out (bit_and w.bit_buf 0xff ∷ []) h
      (omega (arith, bit_and_ones 8 w.bit_buf), tt)

flush-IsByte : (fuel : ℕ) (w : BitWriter) → All IsByte w.out → All IsByte (flush fuel w).out
unfolding flush
flush-IsByte zero w h = h
flush-IsByte (suc fuel) w h = elim (Bool-cases (ltb w.bit_count 8)) [
  | inl small ↦ rw small h
  | inr big ↦ elim (Bool-cases (leb w.cap (pos w))) [
    | inl full ↦ rw (big, full) h
    | inr room ↦ rw (big, room) (flush-IsByte fuel (put_byte w) (put_byte-IsByte w h))
  ]
]

-- Whatever is written, the buffer holds bytes.
pub bw_bits-IsByte : (w : BitWriter) (v n : ℕ) → All IsByte w.out → All IsByte (bw_bits w v n).out
unfolding bw_bits
bw_bits-IsByte w v n h = flush-IsByte (w.bit_count + n) _ h

pub bw_code-IsByte : (w : BitWriter) (v n : ℕ) → All IsByte w.out → All IsByte (bw_code w v n).out
unfolding bw_code
bw_code-IsByte w v n h = bw_bits-IsByte w _ n h

pub bw_align-IsByte : (w : BitWriter) → All IsByte w.out → All IsByte (bw_align w).out
unfolding bw_align
bw_align-IsByte w h = elim (Bool-cases (ltb 0 w.bit_count)) [
  | inl some_bits ↦ rw some_bits (bw_bits-IsByte w 0 _ h)
  | inr no_bits ↦ rw no_bits h
]

-- `w'` has written `bits` more than `w`, without an overflow.
pub record Appends (w w' : BitWriter) (bits : List ℕ) : Type 0 where
  pub ready : IsReady w'
  pub extended : written w' ≡ written w ++ bits
  pub same_cap : w'.cap ≡ w.cap
  pub bytes : All IsByte w.out → All IsByte w'.out

-- There is room for `n` more bits.
abbrev pub Fits : BitWriter → ℕ → Type 0
Fits w n = length (written w) + n ≤ 8 * w.cap

pub Appends-start : (w : BitWriter) → IsReady w → Appends w w []
Appends-start w ready = record {
  ready = ready;
  extended = sym (append-nil (written w));
  same_cap = refl;
  bytes = λ h. h;
}

pub Appends-trans :
    (u v w : BitWriter) (xs ys : List ℕ) → Appends u v xs → Appends v w ys → Appends u w (xs ++ ys)
Appends-trans u v w xs ys a b = record {
  ready = b.ready;
  extended = b.extended ∙ ap (λ (t : List ℕ). t ++ ys) a.extended ∙ append_assoc (written u) xs ys;
  same_cap = b.same_cap ∙ a.same_cap;
  bytes = λ h. b.bytes (a.bytes h);
}

-- The room left behind what was appended.
pub Fits-Appends :
    (w w' : BitWriter) (bits : List ℕ) (n : ℕ)
    → Appends w w' bits
    → Fits w (length bits + n)
    → Fits w' n
Fits-Appends w w' bits n a h =
    omega (arith, ap length a.extended, length-append (written w) bits, a.same_cap)

pub bw_bits-Appends :
    (w : BitWriter) (v n : ℕ) → IsReady w → n ≤ 24 → Fits w n → Appends w (bw_bits w v n) (lsb n v)
bw_bits-Appends w v n ready narrow room =
    let (r, e, c) = bw_bits_appends w v n ready narrow (omega (arith, length-written w)) in
    record { ready = r; extended = e; same_cap = c; bytes = bw_bits-IsByte w v n }

pub bw_code-Appends :
    (w : BitWriter) (code n : ℕ)
    → IsReady w
    → n ≤ 24
    → Fits w n
    → Appends w (bw_code w code n) (msb n code)
bw_code-Appends w code n ready narrow room =
    let (r, e, c) = bw_code_appends w code n ready narrow (omega (arith, length-written w)) in
    record { ready = r; extended = e; same_cap = c; bytes = bw_code-IsByte w code n }

pub bw_align-Appends :
    (w : BitWriter)
    → IsReady w
    → Fits w ((8 - w.bit_count) % 8)
    → Appends w (bw_align w) (lsb ((8 - w.bit_count) % 8) 0) × ((bw_align w).bit_count ≡ 0)
bw_align-Appends w ready room =
    let (r, aligned, e, c) = bw_align_pads w ready (omega (arith, length-written w, ready.0)) in
    (record { ready = r; extended = e; same_cap = c; bytes = bw_align-IsByte w }, aligned)

-- The bits waiting are those written beyond the whole bytes.
pub bit_count-written : (w : BitWriter) → IsReady w → w.bit_count ≡ length (written w) % 8
bit_count-written w ready = omega (arith, length-written w, ready.0)
