-- ===== src/Deflate/RoundTrip/Stored/Whole.antt =====
-- An input that C-Deflate/src/deflate.c stores is what C-Deflate/src/inflate.c makes of the output.
use foundations_lab.Base.{
  ℕ, zero, suc, ◌+◌, ◌*◌, ◌≤◌, ◌<◌, ◌≡◌, refl, ap, ◌∙◌, arith, true, List, [], ◌∷◌, ◌++◌,
  append-nil, some, length, length-append, length-drop, take, drop, All, ltb, leb, ne→==,
  Bool-cases, inl, inr, tests,
}
use foundations_lab.Deflate.Stream.{lsb}
use foundations_lab.Deflate.Bits.{bw_init, bw_finish, br_init}
use foundations_lab.Deflate.Bits.Reader.{IsByte, pending}
use foundations_lab.Deflate.Header.{Scratch}
use foundations_lab.Deflate.Inflate.{rounds, block_loop, deflate_decompress}
use foundations_lab.Deflate.Emit.{chunk_of, emit_stored, emit_chunks, deflate_bound}
use foundations_lab.Deflate.Compress.{Heap, finish, deflate_compress}
use foundations_lab.Deflate.RoundTrip.Finish.{
  IsRestored, finish-IsFinished, bw_init-IsReady, bw_init-Fits, rounds_start,
}
use foundations_lab.Deflate.RoundTrip.Stored.{stored_bits, length-stored_bits, emit_stored-Appends}
use foundations_lab.Deflate.RoundTrip.Stored.Loop.{block_loop_chunks, stored_round}
use foundations_lab.Deflate.RoundTrip.Stored.Chunks.{
  chunk_bits, length-chunk, chunk_pos, length-chunk_bits_bound, emit_chunks-Appends, still_aligned,
}

-- The bits of the whole input fit a buffer of `deflate_bound` bytes.
bound_holds :
    (input : List ℕ) (cap : ℕ)
    → deflate_bound (length input) ≤ cap
    → length (chunk_bits (length input) input) ≤ 8 * cap
unfolding deflate_bound
bound_holds input cap h = omega (arith, length-chunk_bits_bound (length input) input)

-- A stored block is longer than its bytes, so the rounds of the decoder are enough.
chunk_bits_long :
    (n : ℕ) (left : List ℕ) → length left ≤ n → length left ≤ length (chunk_bits n left)
unfolding chunk_bits
chunk_bits_long zero left h = omega arith
chunk_bits_long (suc n) left h = elim (Bool-cases (ltb 0 (length left))) [
  | inr empty ↦ rw empty (omega tests)
  | inl some_left ↦
      let len = length left in
      let chunk = chunk_of len in
      let last = leb len chunk in
      let rest = chunk_bits n (drop chunk left) in
      let one = chunk_pos len (omega tests) in
      let size = length-drop chunk left in
      let later = chunk_bits_long n (drop chunk left) (omega (arith, one, size)) in
      rw some_left (
        omega (
          arith,
          later,
          size,
          length-chunk left,
          length-append (stored_bits last (take chunk left)) rest,
          length-stored_bits last (take chunk left),
        ))
]

pub chunks-IsRestored :
    (s : Scratch) (input : List ℕ) (cap : ℕ)
    → All IsByte input
    → 0 < length input
    → deflate_bound (length input) ≤ cap
    → IsRestored s input (some (finish (emit_chunks (length input) (bw_init cap) input)))
unfolding deflate_decompress br_init
chunks-IsRestored s input cap small pos room =
    let n = length input in
    let bits = chunk_bits n input in
    let w = emit_chunks n (bw_init cap) input in
    let (ready, aligned) = bw_init-IsReady cap in
    let fits = bound_holds input cap room in
    let (all, end) =
      emit_chunks-Appends n (bw_init cap) input ready aligned
        (bw_init-Fits cap (length bits) fits) in
    let done = finish-IsFinished w bits cap all fits in
    let out = (bw_finish w).out in
    let whole : pending (br_init out) ≡ bits =
      done.stream ∙ unfold lsb in rw end (append-nil bits) in
    record {
      bytes = out;
      returned = ap some done.returned;
      restored =
          block_loop_chunks n (rounds (br_init out)) s n (br_init out) input [] pos (omega arith)
            (omega
              (arith, chunk_bits_long n input (omega arith), ap length whole, rounds_start out))
            done.opened refl small (omega arith) whole;
    }

-- The empty input is one stored block without bytes.
empty-IsRestored :
    (s : Scratch) (cap : ℕ)
    → 5 ≤ cap
    → IsRestored s [] (some (finish (emit_stored (bw_init cap) [] true)))
unfolding deflate_decompress br_init
empty-IsRestored s cap room =
    let w = emit_stored (bw_init cap) [] true in
    let bits = stored_bits true [] in
    let (ready, aligned) = bw_init-IsReady cap in
    let size = length-stored_bits true [] in
    let all =
      emit_stored-Appends (bw_init cap) [] true ready aligned (omega arith)
        (bw_init-Fits cap 40 (omega arith)) in
    let end = still_aligned (bw_init cap) w bits 5 ready aligned all size in
    let done = finish-IsFinished w bits cap all (omega (arith, size)) in
    let out = (bw_finish w).out in
    let whole : pending (br_init out) ≡ bits ++ [] = done.stream ∙ unfold lsb in rw end refl in
    let round =
      stored_round (8 * length out + 8) s 0 true (br_init out) [] [] [] 0 done.opened refl tt
        (omega arith) (omega arith) refl whole in
    record {
      bytes = out;
      returned = ap some done.returned;
      restored =
          ap (λ (f : ℕ). block_loop f s 0 (br_init out) []) {x = rounds (br_init out)} (omega arith)
          ∙ round.is_result;
    }

-- At level 0, with a buffer of `deflate_bound` bytes, `deflate_compress` returns bytes from which
-- `deflate_decompress` restores the input.
pub deflate_compress_store-IsRestored :
    (s : Scratch) (m : Heap) (input : List ℕ) (cap : ℕ)
    → All IsByte input
    → deflate_bound (length input) ≤ cap
    → IsRestored s input (deflate_compress m input cap 0)
unfolding deflate_compress deflate_bound
deflate_compress_store-IsRestored s m [] cap small room = empty-IsRestored s cap (omega arith)
deflate_compress_store-IsRestored s m (b ∷ bs) cap small room =
    rw (ne→== (suc (length bs)) 0 (omega arith))
      (chunks-IsRestored s (b ∷ bs) cap small (omega arith) room)
