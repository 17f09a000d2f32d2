-- ===== src/Deflate/RoundTrip/Stored.antt =====
-- `emit_stored` and its loop in C-Deflate/src/deflate.c: the bits of stored blocks that begin at a
-- byte boundary.
pub mod Chunks
pub mod Read
pub mod Loop
pub mod Whole
use foundations_lab.Base.{
  ℕ, zero, suc, ◌+◌, ◌-◌, ◌*◌, ◌/◌, ◌%◌, ◌^◌, ◌≤◌, ◌<◌, ◌≡◌, refl, sym, ap, ◌∙◌, arith, Bool, true,
  false, List, [], ◌∷◌, ◌++◌, append_assoc, length, length-append, length-take, length-drop, take,
  drop, All, bit_and, bit_and_ones, ltb, leb, if◌then◌else◌, Bool-cases, inl, inr, tests,
}
use foundations_lab.Deflate.Stream.{lsb, byte_bits, length-lsb, length-byte_bits}
use foundations_lab.Deflate.Bits.{BitWriter, bw_bits, bw_align}
use foundations_lab.Deflate.Bits.Writer.{written, IsReady}
use foundations_lab.Deflate.Bits.Reader.{IsByte}
use foundations_lab.Deflate.Bits.Appends.{
  Appends, Appends-start, Appends-trans, Fits, Fits-Appends, bw_bits-Appends, bw_align-Appends,
  bit_count-written,
}
use foundations_lab.Deflate.Emit.{emit_bytes, emit_stored, emit_chunks, chunk_of}

pub emit_bytes-Appends :
    (w : BitWriter) (bs : List ℕ)
    → IsReady w
    → Fits w (8 * length bs)
    → Appends w (emit_bytes w bs) (byte_bits bs)
unfolding emit_bytes byte_bits
emit_bytes-Appends w [] ready room = Appends-start w ready
emit_bytes-Appends w (b ∷ bs) ready room =
    let one = bw_bits-Appends w b 8 ready (omega arith) (omega arith) in
    Appends-trans w (bw_bits w b 8) _ (lsb 8 b) (byte_bits bs) one (
      emit_bytes-Appends (bw_bits w b 8) bs one.ready (
        Fits-Appends w (bw_bits w b 8) (lsb 8 b) (8 * length bs) one
          (omega (arith, length-lsb 8 b))))

-- The bit that says whether the block is the last.
abbrev pub flag : Bool → ℕ
flag final = if final then 1 else 0

-- The two length fields, and the bytes.
abbrev pub stored_body : List ℕ → List ℕ
stored_body bytes = lsb 16 (length bytes) ++ (lsb 16 (65535 - length bytes) ++ byte_bits bytes)

abbrev pub stored_bits : Bool → List ℕ → List ℕ
stored_bits final bytes = lsb 1 (flag final) ++ (lsb 2 0 ++ (lsb 5 0 ++ stored_body bytes))

pub length-stored_body : (bytes : List ℕ) → length (stored_body bytes) ≡ 8 * (length bytes + 4)
length-stored_body bytes = omega (
  arith,
  length-append (lsb 16 (length bytes)) (lsb 16 (65535 - length bytes) ++ byte_bits bytes),
  length-append (lsb 16 (65535 - length bytes)) (byte_bits bytes),
  length-lsb 16 (length bytes),
  length-lsb 16 (65535 - length bytes),
  length-byte_bits bytes,
)

pub length-stored_bits :
    (final : Bool) (bytes : List ℕ) → length (stored_bits final bytes) ≡ 8 * (length bytes + 5)
length-stored_bits final bytes = omega (
  arith,
  length-append (lsb 1 (flag final)) (lsb 2 0 ++ (lsb 5 0 ++ stored_body bytes)),
  length-append (lsb 2 0) (lsb 5 0 ++ stored_body bytes),
  length-append (lsb 5 0) (stored_body bytes),
  length-lsb 1 (flag final),
  length-lsb 2 0,
  length-lsb 5 0,
  length-stored_body bytes,
)

length_field : (n : ℕ) → n ≤ 65535 → bit_and n 0xffff ≡ n
length_field n h = omega (arith, bit_and_ones 16 n)

complement_field : (n : ℕ) → n ≤ 65535 → bit_and (2 ^ 64 - 1 - n) 0xffff ≡ 65535 - n
complement_field n h = omega (arith, bit_and_ones 16 (2 ^ 64 - 1 - n))

-- The fields behind the alignment.
stored_body-Appends :
    (w : BitWriter) (bytes : List ℕ)
    → IsReady w
    → length bytes ≤ 65535
    → Fits w (8 * (length bytes + 4))
    → Appends w
        (emit_bytes
          (bw_bits
            (bw_bits w (bit_and (length bytes) 0xffff) 16)
            (bit_and (2 ^ 64 - 1 - length bytes) 0xffff)
            16)
          bytes)
        (stored_body bytes)
stored_body-Appends w bytes ready short room =
    let n = length bytes in
    let w1 = bw_bits w n 16 in
    let w2 = bw_bits w1 (65535 - n) 16 in
    let one = bw_bits-Appends w n 16 ready (omega arith) (omega arith) in
    let room1 = Fits-Appends w w1 (lsb 16 n) (8 * (n + 2)) one (omega (arith, length-lsb 16 n)) in
    let two = bw_bits-Appends w1 (65535 - n) 16 one.ready (omega arith) (omega arith) in
    let room2 =
      Fits-Appends w1 w2 (lsb 16 (65535 - n)) (8 * n) two
        (omega (arith, length-lsb 16 (65535 - n))) in
    rw (length_field n short, complement_field n short)
      (Appends-trans w w1 _ (lsb 16 n) _ one (
        Appends-trans w1 w2 _ (lsb 16 (65535 - n)) _ two
          (emit_bytes-Appends w2 bytes two.ready room2)))

-- A stored block that begins at a byte boundary.
pub emit_stored-Appends :
    (w : BitWriter) (bytes : List ℕ) (final : Bool)
    → IsReady w
    → w.bit_count ≡ 0
    → length bytes ≤ 65535
    → Fits w (8 * (length bytes + 5))
    → Appends w (emit_stored w bytes final) (stored_bits final bytes)
unfolding emit_stored
emit_stored-Appends w bytes final ready aligned short room =
    let n = length bytes in
    let f = flag final in
    let w1 = bw_bits w f 1 in
    let w2 = bw_bits w1 0 2 in
    let one = bw_bits-Appends w f 1 ready (omega arith) (omega arith) in
    let room1 = Fits-Appends w w1 (lsb 1 f) (7 + 8 * (n + 4)) one (omega (arith, length-lsb 1 f)) in
    let two = bw_bits-Appends w1 0 2 one.ready (omega arith) (omega arith) in
    let room2 =
      Fits-Appends w1 w2 (lsb 2 0) (5 + 8 * (n + 4)) two (omega (arith, length-lsb 2 0)) in
    let five : (8 - w2.bit_count) % 8 ≡ 5 = omega (
      arith,
      bit_count-written w ready,
      bit_count-written w2 two.ready,
      ap length one.extended,
      ap length two.extended,
      length-append (written w) (lsb 1 f),
      length-append (written w1) (lsb 2 0),
      length-lsb 1 f,
      length-lsb 2 0,
    ) in
    let (padded, _) = bw_align-Appends w2 two.ready (omega arith) in
    let pad : Appends w2 (bw_align w2) (lsb 5 0) = rw five at padded in
    let room3 =
      Fits-Appends w2 (bw_align w2) (lsb 5 0) (8 * (n + 4)) pad (omega (arith, length-lsb 5 0)) in
    Appends-trans w w1 _ (lsb 1 f) _ one (
      Appends-trans w1 w2 _ (lsb 2 0) _ two (
        Appends-trans w2 (bw_align w2) _ (lsb 5 0) _ pad
          (stored_body-Appends (bw_align w2) bytes pad.ready short room3)))
