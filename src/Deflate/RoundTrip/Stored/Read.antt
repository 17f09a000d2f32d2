-- ===== src/Deflate/RoundTrip/Stored/Read.antt =====
-- The branch of C-Deflate/src/inflate.c that reads a stored block, on what the encoder wrote.
use foundations_lab.Base.{
  ℕ, ◌+◌, ◌-◌, ◌*◌, ◌^◌, ◌≤◌, ◌≡◌, sym, ap, ◌∙◌, arith, false, List, [], ◌∷◌, ◌++◌, append_assoc,
  append-nil, length, length-append, All, bit_and, bit_and_ones, le→ltb, eq→==,
}
use foundations_lab.Deflate.Stream.{lsb, byte_bits}
use foundations_lab.Deflate.Bits.{BitReader, br_bits, br_align}
use foundations_lab.Deflate.Bits.Reader.{IsByte, pending, IsOpen}
use foundations_lab.Deflate.Bits.Fields.{br_bits_reads, br_align_drops, br_align_skips}
use foundations_lab.Deflate.Status.{ok}
use foundations_lab.Deflate.Inflate.{stored_loop, stored_block}
use foundations_lab.Deflate.RoundTrip.Blocks.{EndsAt}
use foundations_lab.Deflate.RoundTrip.Stored.{stored_body, length-stored_body}

stored_loop_reads :
    (bytes : List ℕ) (r : BitReader) (out rest : List ℕ)
    → IsOpen r
    → r.underflow ≡ false
    → All IsByte bytes
    → pending r ≡ byte_bits bytes ++ rest
    → EndsAt (stored_loop (length bytes) r out) (out ++ bytes) rest
unfolding stored_loop byte_bits
stored_loop_reads [] r out rest o clear small e = record {
  reader = r;
  returned = ap (λ (t : List ℕ). ok (r, t)) (sym (append-nil out));
  left = e;
  opened = o;
  lasts = clear;
}
stored_loop_reads (b ∷ bs) r out rest o clear small e =
    let r' = (br_bits r 8).1 in
    let one =
      br_bits_reads r 8 b (byte_bits bs ++ rest) o (omega arith) small.0
        (e ∙ append_assoc (lsb 8 b) (byte_bits bs) rest) in
    let clear' = one.same_flag ∙ clear in
    let all = stored_loop_reads bs r' (out ++ (b ∷ [])) rest one.opened clear' small.1 one.left in
    rw (one.value, clear')
      (record {
        reader = all.reader;
        returned =
            all.returned ∙ ap (λ (t : List ℕ). ok (all.reader, t)) (append_assoc out (b ∷ []) bs);
        left = all.left;
        opened = all.opened;
        lasts = all.lasts;
      })

complement_agrees :
    (n : ℕ) → n ≤ 65535 → bit_and n 0xffff ≡ bit_and (2 ^ 32 - 1 - (65535 - n)) 0xffff
complement_agrees n h = omega (arith, bit_and_ones 16 n, bit_and_ones 16 (2 ^ 32 - 1 - (65535 - n)))

-- A stored block of whole bytes behind its padding.
pub stored_block_reads :
    (cap : ℕ) (bytes : List ℕ) (r : BitReader) (out rest : List ℕ) (m : ℕ)
    → IsOpen r
    → r.underflow ≡ false
    → All IsByte bytes
    → length bytes ≤ 65535
    → length out + length bytes ≤ cap
    → length rest ≡ 8 * m
    → pending r ≡ lsb 5 0 ++ (stored_body bytes ++ rest)
    → EndsAt (stored_block cap r out) (out ++ bytes) rest
unfolding stored_block
stored_block_reads cap bytes r out rest m o clear small short room whole e =
    let n = length bytes in
    let r0 = br_align r in
    let r1 = (br_bits r0 16).1 in
    let tail = lsb 16 (65535 - n) ++ byte_bits bytes in
    let body : length (stored_body bytes ++ rest) ≡ 8 * (n + 4 + m) =
      omega (arith, length-append (stored_body bytes) rest, length-stored_body bytes) in
    let skipped =
      br_align_skips r 5 (n + 4 + m) (stored_body bytes ++ rest) o (omega arith) body e in
    let (_, o0, flag0) = br_align_drops r o in
    let one =
      br_bits_reads r0 16 n (tail ++ rest) o0 (omega arith) (omega arith)
        (skipped ∙ append_assoc (lsb 16 n) tail rest) in
    let two =
      br_bits_reads r1 16 (65535 - n) (byte_bits bytes ++ rest) one.opened (omega arith)
        (omega arith) (one.left ∙ append_assoc (lsb 16 (65535 - n)) (byte_bits bytes) rest) in
    let clear' = two.same_flag ∙ one.same_flag ∙ flag0 ∙ clear in
    rw
      (
        one.value,
        two.value,
        clear',
        eq→== (bit_and n 0xffff) (bit_and (2 ^ 32 - 1 - (65535 - n)) 0xffff)
            (complement_agrees n short),
        le→ltb cap (length out + n) room,
      )
      (stored_loop_reads bytes (br_bits r1 16).1 out rest two.opened clear' small two.left)
