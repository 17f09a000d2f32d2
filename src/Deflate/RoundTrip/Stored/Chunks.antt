-- ===== src/Deflate/RoundTrip/Stored/Chunks.antt =====
-- The loop of C-Deflate/src/deflate.c that stores an input in blocks of up to 65535 bytes.
use foundations_lab.Base.{
  ℕ, zero, suc, ◌+◌, ◌*◌, ◌/◌, ◌≤◌, ◌<◌, ◌≡◌, ◌⊎◌, refl, ap, arith, List, [], ◌++◌, length,
  length-append, length-take, length-drop, take, drop, ltb, leb, if◌then◌else◌, Bool-cases, inl,
  inr, tests,
}
use foundations_lab.Deflate.Bits.{BitWriter}
use foundations_lab.Deflate.Bits.Writer.{written, IsReady}
use foundations_lab.Deflate.Bits.Appends.{
  Appends, Appends-start, Appends-trans, Fits, Fits-Appends, bit_count-written,
}
use foundations_lab.Deflate.Emit.{emit_stored, emit_chunks, chunk_of}
use foundations_lab.Deflate.RoundTrip.Stored.{stored_bits, length-stored_bits, emit_stored-Appends}

-- The bits of the loop, by the same recursion.
unfoldable pub chunk_bits : ℕ → List ℕ → List ℕ
chunk_bits zero left = []
chunk_bits (suc fuel) left =
    let chunk = chunk_of (length left) in
    let rest =
      stored_bits (leb (length left) chunk) (take chunk left)
      ++ chunk_bits fuel (drop chunk left) in
    if ltb 0 (length left) then rest else []

pub chunk_inside : (n : ℕ) → chunk_of n ≤ n
chunk_inside n = ground arith

pub length-chunk :
    (left : List ℕ) → length (take (chunk_of (length left)) left) ≡ chunk_of (length left)
length-chunk left = length-take (chunk_of (length left)) left (chunk_inside (length left))

pub chunk_small : (n : ℕ) → chunk_of n ≤ 65535
chunk_small n = ground arith

pub chunk_pos : (n : ℕ) → 0 < n → 0 < chunk_of n
chunk_pos n h = ground arith

-- A long input loses a whole chunk, and a short one ends.
pub chunk-cases : (n : ℕ) → ((n ≤ 65535) × (chunk_of n ≡ n)) ⊎ ((65535 < n) × (chunk_of n ≡ 65535))
chunk-cases n = elim (Bool-cases (ltb 65535 n)) [
  | inl long ↦ inr (omega tests, rw long refl)
  | inr short ↦ inl (omega tests, rw short refl)
]

length-chunk_bits_end :
    (fuel : ℕ) (left : List ℕ) → length left ≡ 0 → length (chunk_bits fuel left) ≡ 0
unfolding chunk_bits
length-chunk_bits_end zero left h = refl
length-chunk_bits_end (suc fuel) left h = rw h refl

-- Five bytes for every block, of which there is one more than the chunks that are full.
pub length-chunk_bits_bound :
    (fuel : ℕ) (left : List ℕ)
    → length (chunk_bits fuel left) ≤ 8 * (length left + (length left / 65535 + 1) * 5)
unfolding chunk_bits
length-chunk_bits_bound zero left = omega arith
length-chunk_bits_bound (suc fuel) left = elim (Bool-cases (ltb 0 (length left))) [
  | inr empty ↦ rw empty (omega arith)
  | inl some_left ↦
      let n = length left in
      let chunk = chunk_of n in
      let block = stored_bits (leb n chunk) (take chunk left) in
      let rest = drop chunk left in
      let total : length (block ++ chunk_bits fuel rest)
          ≡ 8 * (chunk + 5) + length (chunk_bits fuel rest) =
        omega (
          arith,
          length-append block (chunk_bits fuel rest),
          length-stored_bits (leb n chunk) (take chunk left),
          length-chunk left,
        ) in
      elim (chunk-cases n) [
        | inl (small, all) ↦ rw some_left (
            omega (
              arith,
              total,
              length-chunk_bits_end fuel rest (omega (arith, length-drop chunk left)),
              all,
            ))
        | inr (large, full) ↦
            rw some_left (
              omega (arith, total, length-chunk_bits_bound fuel rest, length-drop chunk left, full))
      ]
]

-- A writer at a byte boundary is at one again behind whole bytes.
pub still_aligned :
    (w w' : BitWriter) (bits : List ℕ) (m : ℕ)
    → IsReady w
    → w.bit_count ≡ 0
    → Appends w w' bits
    → length bits ≡ 8 * m
    → w'.bit_count ≡ 0
still_aligned w w' bits m ready aligned a whole = omega (
  arith,
  bit_count-written w ready,
  bit_count-written w' a.ready,
  ap length a.extended,
  length-append (written w) bits,
)

pub emit_chunks-Appends :
    (fuel : ℕ) (w : BitWriter) (left : List ℕ)
    → IsReady w
    → w.bit_count ≡ 0
    → Fits w (length (chunk_bits fuel left))
    → Appends w (emit_chunks fuel w left) (chunk_bits fuel left)
      × ((emit_chunks fuel w left).bit_count ≡ 0)
unfolding emit_chunks chunk_bits
emit_chunks-Appends zero w left ready aligned room = (Appends-start w ready, aligned)
emit_chunks-Appends (suc fuel) w left ready aligned room = elim (Bool-cases (ltb 0 (length left))) [
  | inr empty ↦ rw empty (Appends-start w ready, aligned)
  | inl some_left ↦
      let n = length left in
      let chunk = chunk_of n in
      let last = leb n chunk in
      let bytes = take chunk left in
      let w' = emit_stored w bytes last in
      let rest = chunk_bits fuel (drop chunk left) in
      let size = length-stored_bits last bytes in
      let room' : Fits w (8 * (length bytes + 5) + length rest) =
        omega (arith, rw some_left at room, length-append (stored_bits last bytes) rest, size) in
      let one =
        emit_stored-Appends w bytes last ready aligned
          (omega (arith, length-chunk left, chunk_small n)) (omega arith) in
      let next =
        still_aligned w w' (stored_bits last bytes) (length bytes + 5) ready aligned one size in
      let (all, end) =
        emit_chunks-Appends fuel w' (drop chunk left) one.ready next
          (Fits-Appends w w' (stored_bits last bytes) (length rest) one (omega arith)) in
      rw some_left (Appends-trans w w' _ (stored_bits last bytes) rest one all, end)
]
