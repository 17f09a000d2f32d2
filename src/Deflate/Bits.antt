-- ===== src/Deflate/Bits.antt =====
-- C-Deflate/src/bits.c: the bit writer and the bit reader (the tables of that file are in Tables).
-- A `uint32_t` is a number with its wrap written out; `bit_count` is a C int that stays small.
pub mod Writer
pub mod Code
pub mod Reader
pub mod Fields
pub mod Progress
pub mod Appends
pub mod RoundTrip
mod Tests
use foundations_lab.Base.{
  ℕ, zero, suc, ◌+◌, ◌-◌, ◌*◌, ◌/◌, ◌%◌, ◌^◌, bit_and, bit_or, Bool, true, false, List, [], ◌∷◌,
  ◌++◌, length, get_or, ltb, leb, ◌==◌, if◌then◌else◌,
}

-- Conversion to `uint32_t`.
abbrev pub u32 : ℕ → ℕ
u32 n = n % 2 ^ 32

-- `out` holds the bytes written so far, `out[0 .. pos)`; no byte of the buffer beyond `pos` is read.
pub record BitWriter : Type 0 where
  pub out : List ℕ
  pub cap : ℕ
  pub bit_buf : ℕ
  pub bit_count : ℕ
  pub overflow : Bool

abbrev pub pos : BitWriter → ℕ
pos w = length w.out

unfoldable pub bw_init : ℕ → BitWriter
bw_init cap = record { out = []; cap = cap; bit_buf = 0; bit_count = 0; overflow = false }

-- `out[pos++] = bit_buf & 0xFF; bit_buf >>= 8; bit_count -= 8`
unfoldable pub put_byte : BitWriter → BitWriter
put_byte w = record w {
  out = w.out ++ (bit_and w.bit_buf 0xff ∷ []);
  bit_buf = w.bit_buf / 2 ^ 8;
  bit_count = w.bit_count - 8;
}

-- The loop `while (bit_count >= 8)`; a round takes 8 from the count, so `bit_count` rounds do.
unfoldable pub flush : ℕ → BitWriter → BitWriter
unfolding put_byte
flush zero w = w
flush (suc fuel) w =
    let rest = flush fuel (put_byte w) in
    if ltb w.bit_count 8
    then w
    else if leb w.cap (pos w)
    then record w { overflow = true }
    else rest

unfoldable pub bw_bits : BitWriter → ℕ → ℕ → BitWriter
unfolding flush
bw_bits w value count =
    let masked = if ltb count 32 then bit_and value (2 ^ count - 1) else value in
    flush (w.bit_count + count) (record w {
      bit_buf = bit_or w.bit_buf (u32 (masked * 2 ^ w.bit_count));
      bit_count = w.bit_count + count;
    })

-- The loop of `bw_code` from index `i` on, with `left` rounds to go.
unfoldable pub reverse_code : ℕ → ℕ → ℕ → ℕ → ℕ
reverse_code zero i code reversed = reversed
reverse_code (suc left) i code reversed =
    reverse_code left (i + 1) code (bit_or (u32 (reversed * 2)) (bit_and (code / 2 ^ i) 1))

unfoldable pub bw_code : BitWriter → ℕ → ℕ → BitWriter
unfolding bw_bits reverse_code
bw_code w code count = bw_bits w (reverse_code count 0 code 0) count

unfoldable pub bw_align : BitWriter → BitWriter
unfolding bw_bits
bw_align w = if ltb 0 w.bit_count then bw_bits w 0 (8 - w.bit_count) else w

-- The caller reads `pos` and `overflow` of the result.
unfoldable pub bw_finish : BitWriter → BitWriter
unfolding bw_align
bw_finish w = bw_align w

pub record BitReader : Type 0 where
  pub input : List ℕ
  pub next : ℕ
  pub bit_buf : ℕ
  pub bit_count : ℕ
  pub underflow : Bool

unfoldable pub br_init : List ℕ → BitReader
br_init input = record { input = input; next = 0; bit_buf = 0; bit_count = 0; underflow = false }

-- Past the end of the input eight zero bits are fed, and the fact is latched.
unfoldable pub refill_zeros : BitReader → BitReader
refill_zeros r = record r {
  underflow = true;
  bit_buf = bit_or r.bit_buf (u32 (0 * 2 ^ r.bit_count));
  bit_count = r.bit_count + 8;
}

unfoldable pub refill_byte : BitReader → BitReader
refill_byte r = record r {
  bit_buf = bit_or r.bit_buf (u32 (get_or r.input r.next 0 * 2 ^ r.bit_count));
  next = r.next + 1;
  bit_count = r.bit_count + 8;
}

-- One round of the loop of `br_bits`.
unfoldable pub refill : BitReader → BitReader
unfolding refill_zeros refill_byte
refill r = if leb (length r.input) r.next then refill_zeros r else refill_byte r

-- The loop `while (bit_count < count)`; a round adds 8, so `count` rounds do.
unfoldable pub fill : ℕ → ℕ → BitReader → BitReader
unfolding refill
fill zero count r = r
fill (suc fuel) count r =
    let rest = fill fuel count (refill r) in if ltb r.bit_count count then rest else r

unfoldable pub br_bits : BitReader → ℕ → ℕ × BitReader
unfolding fill
br_bits r count =
    let r' = fill count count r in
    let mask = if count == 32 then 0xffffffff else 2 ^ count - 1 in
    (
      bit_and r'.bit_buf mask,
      record r' { bit_buf = r'.bit_buf / 2 ^ count; bit_count = r'.bit_count - count },
    )

unfoldable pub br_align : BitReader → BitReader
unfolding br_bits
br_align r = let drop = bit_and r.bit_count 7 in if drop == 0 then r else (br_bits r drop).1
