-- ===== src/Deflate/Bits/Writer.antt =====
-- The bit writer appends to a stream: what `bw_bits`, `bw_code` and `bw_align` of
-- C-Deflate/src/bits.c add to the bits written so far, and when the buffer overflows.
use mathlib.Core.Path.{◌≡⟨◌⟩◌, ◌∎}
use native.Mathlib.Nat.{one-le-pow, pow-le-pow_right, mod-eq_of_lt}
use foundations_lab.Base.{
  ℕ, zero, suc, ◌+◌, ◌-◌, ◌*◌, ◌/◌, ◌%◌, ◌^◌, ◌≤◌, ◌<◌, ◌≡◌, refl, ap, ◌∙◌, sym, List, [], ◌∷◌,
  ◌++◌, append_assoc, arith, length-append, true, false, bit_and, bit_or, bit_and_ones,
  bit_or_shifted, ltb, lt→leb, lt→ltb, if◌then◌else◌, two_pow-add, Bool-cases, tests,
  div-lt_two_pow, inl, inr,
}
use foundations_lab.Deflate.Stream.{
  lsb, byte_bits, lsb-append, byte_bits-append, lsb-split, lsb-mod,
}
use foundations_lab.Deflate.Bits.{u32, BitWriter, pos, put_byte, flush, bw_bits}

-- Everything written so far: the whole bytes, then the bits still in the buffer.
abbrev pub written : BitWriter → List ℕ
written w = byte_bits w.out ++ lsb w.bit_count w.bit_buf

-- The bits in the buffer are no more than `bit_count` says.
abbrev pub IsTight : BitWriter → Type 0
IsTight w = (w.bit_buf < 2 ^ w.bit_count) × (w.overflow ≡ false)

-- Between two calls fewer than eight bits wait.
abbrev pub IsReady : BitWriter → Type 0
IsReady w = (w.bit_count < 8) × (w.bit_buf < 2 ^ w.bit_count) × (w.overflow ≡ false)

written-put_byte : (w : BitWriter) → 8 ≤ w.bit_count → written (put_byte w) ≡ written w
unfolding put_byte byte_bits
written-put_byte w h =
    let n = w.bit_count in
    let v = w.bit_buf in
    byte_bits (w.out ++ (bit_and v 0xff ∷ [])) ++ lsb (n - 8) (v / 2 ^ 8)
    ≡⟨ ap (λ (t : List ℕ). t ++ lsb (n - 8) (v / 2 ^ 8))
        (byte_bits-append w.out (bit_and v 0xff ∷ [])) ⟩
      (byte_bits w.out ++ (lsb 8 (bit_and v 0xff) ++ [])) ++ lsb (n - 8) (v / 2 ^ 8)
    ≡⟨ (simp (append_assoc, bit_and_ones 8 v)) ⟩
      byte_bits w.out ++ (lsb 8 (v % 2 ^ 8) ++ lsb (n - 8) (v / 2 ^ 8))
    ≡⟨ ap (λ (t : List ℕ). byte_bits w.out ++ t) (sym (lsb-split 8 (n - 8) v)) ⟩
      byte_bits w.out ++ lsb (8 + (n - 8)) v
    ≡⟨ ap (λ (k : ℕ). byte_bits w.out ++ lsb k v) (omega arith) ⟩ written w ∎

put_byte-IsTight : (w : BitWriter) → 8 ≤ w.bit_count → IsTight w → IsTight (put_byte w)
unfolding put_byte
put_byte-IsTight w h (k, o) = (div-lt_two_pow w.bit_buf 8 w.bit_count h k, o)

-- What the loop of `bw_bits` leaves, when the bytes fit: nothing is lost, and fewer than eight bits
-- wait in the buffer.
record IsFlushed (w w' : BitWriter) : Type 0 where
  ready : IsReady w'
  same : written w' ≡ written w
  same_cap : w'.cap ≡ w.cap

pos-put_byte : (w : BitWriter) → pos (put_byte w) ≡ pos w + 1
unfolding put_byte
pos-put_byte w = length-append w.out (bit_and w.bit_buf 0xff ∷ [])

flush_lem :
    (fuel : ℕ) (w : BitWriter)
    → w.bit_count < 8 + 8 * fuel
    → IsTight w
    → pos w + w.bit_count / 8 ≤ w.cap
    → IsFlushed w (flush fuel w)
unfolding flush
flush_lem zero w f t room = record { ready = (omega arith, t.0, t.1); same = refl; same_cap = refl }
flush_lem (suc fuel) w f t room = elim (Bool-cases (ltb w.bit_count 8)) [
  | inl small ↦ rw small (record { ready = (omega tests, t.0, t.1); same = refl; same_cap = refl })
  | inr big ↦
      let h : 8 ≤ w.bit_count = omega tests in
      let rest =
        flush_lem fuel (put_byte w) (omega arith) (put_byte-IsTight w h t)
          (omega (arith, pos-put_byte w)) in
      rw (big, lt→leb w.cap (pos w) (omega arith))
        (record {
          ready = rest.ready;
          same = rest.same ∙ written-put_byte w h;
          same_cap = rest.same_cap;
        })
]

-- Without room the flag is set, and no byte is stored past the end.
flush_full :
    (fuel : ℕ) (w : BitWriter)
    → w.bit_count < 8 + 8 * fuel
    → pos w ≤ w.cap
    → w.cap < pos w + w.bit_count / 8
    → ((flush fuel w).overflow ≡ true) × (pos (flush fuel w) ≡ w.cap)
unfolding flush
flush_full zero w f le full = absurd (omega arith)
flush_full (suc fuel) w f le full = ground (arith, pos-put_byte w, flush_full fuel (put_byte w))

-- The field as it goes into the buffer.
masked : (v n : ℕ) → n < 32 → (if ltb n 32 then bit_and v (2 ^ n - 1) else v) ≡ v % 2 ^ n
masked v n h = rw (lt→ltb n 32 h) (bit_and_ones n v)

-- `bit_buf |= value << bit_count` before the loop.
abbrev loaded : BitWriter → ℕ → ℕ → BitWriter
loaded w v n = record w {
  bit_buf = bit_or w.bit_buf (u32 (v % 2 ^ n * 2 ^ w.bit_count));
  bit_count = w.bit_count + n;
}

bw_bits-loaded :
    (w : BitWriter) (v n : ℕ) → n < 32 → bw_bits w v n ≡ flush (w.bit_count + n) (loaded w v n)
unfolding bw_bits
bw_bits-loaded w v n h = rw (masked v n h)

-- A field of `n` bits above `c` others.
pub shifted_fits : (x n c : ℕ) → x < 2 ^ n → x * 2 ^ c + 2 ^ c ≤ 2 ^ (c + n)
shifted_fits x n c h = grind (arith, two_pow-add c n)

low_field : (v n : ℕ) → v % 2 ^ n < 2 ^ n
low_field v n = omega (arith, one-le-pow n 2)

module _ (w : BitWriter) (v n : ℕ) (ready : IsReady w) (narrow : n ≤ 24) where
  no_wrap : v % 2 ^ n * 2 ^ w.bit_count < 2 ^ 32
  no_wrap =
      let bound : 2 ^ (w.bit_count + n) ≤ 2 ^ 31 =
        pow-le-pow_right (omega arith) {j = 31} (omega arith) in
      omega
        (arith, shifted_fits (v % 2 ^ n) n w.bit_count (low_field v n), one-le-pow w.bit_count 2)

  loaded_sum : (loaded w v n).bit_buf ≡ w.bit_buf + v % 2 ^ n * 2 ^ w.bit_count
  loaded_sum =
      ap (bit_or w.bit_buf) (mod-eq_of_lt no_wrap)
      ∙ bit_or_shifted w.bit_count (v % 2 ^ n) w.bit_buf ready.1

  loaded-IsTight : IsTight (loaded w v n)
  loaded-IsTight =
      (omega (arith, loaded_sum, shifted_fits (v % 2 ^ n) n w.bit_count (low_field v n)), ready.2)

  written-loaded : written (loaded w v n) ≡ written w ++ lsb n v
  written-loaded =
      ap (λ (t : ℕ). byte_bits w.out ++ lsb (w.bit_count + n) t) loaded_sum
      ∙ ap (λ (t : List ℕ). byte_bits w.out ++ t)
          (lsb-append w.bit_count n w.bit_buf (v % 2 ^ n) ready.1
            ∙ ap (λ (t : List ℕ). lsb w.bit_count w.bit_buf ++ t) (lsb-mod n v))
      ∙ sym (append_assoc (byte_bits w.out) (lsb w.bit_count w.bit_buf) (lsb n v))

  -- To a ready writer with room for the bytes that fill up, `bw_bits` appends the low bits of the
  -- value, up to 24, the lowest first, and leaves it ready with the same buffer.
  pub bw_bits_appends :
      pos w + (w.bit_count + n) / 8 ≤ w.cap
      → IsReady (bw_bits w v n)
        × (written (bw_bits w v n) ≡ written w ++ lsb n v)
        × ((bw_bits w v n).cap ≡ w.cap)
  bw_bits_appends room =
      let done = flush_lem (w.bit_count + n) (loaded w v n) (omega arith) loaded-IsTight room in
      rw (bw_bits-loaded w v n (omega arith))
        (done.ready, done.same ∙ written-loaded, done.same_cap)

  -- On a ready writer without that room, `bw_bits` of up to 24 bits sets the flag and leaves the
  -- bytes at the end of the buffer.
  pub bw_bits_overflows :
      pos w ≤ w.cap
      → w.cap < pos w + (w.bit_count + n) / 8
      → ((bw_bits w v n).overflow ≡ true) × (pos (bw_bits w v n) ≡ w.cap)
  bw_bits_overflows le full =
      rw (bw_bits-loaded w v n (omega arith))
        (flush_full (w.bit_count + n) (loaded w v n) (omega arith) le full)
