-- ===== src/Deflate/RoundTrip/Stored/Loop.antt =====
-- The loop over blocks of C-Deflate/src/inflate.c on the stored blocks of an input.
use foundations_lab.Base.{
  ℕ, zero, suc, ◌+◌, ◌*◌, ◌≤◌, ◌<◌, ◌≡◌, refl, ap, ◌∙◌, arith, Bool, false, List, [], ◌∷◌, ◌++◌,
  append_assoc, some, length, length-append, length-drop, take, drop, All, ltb, leb, lt→ltb,
  take_all, Bool-cases, inl, inr, tests,
}
use foundations_lab.Deflate.Stream.{lsb}
use foundations_lab.Deflate.Bits.{BitReader}
use foundations_lab.Deflate.Bits.Reader.{IsByte, pending, IsOpen}
use foundations_lab.Deflate.Status.{ok}
use foundations_lab.Deflate.Header.{Scratch}
use foundations_lab.Deflate.Inflate.{stored_block, read_block, block_loop}
use foundations_lab.Deflate.Emit.{chunk_of}
use foundations_lab.Deflate.RoundTrip.Blocks.{IsReadAs, IsRounded, block_loop_reads}
use foundations_lab.Deflate.RoundTrip.Stored.{flag, stored_body, stored_bits, length-stored_bits}
use foundations_lab.Deflate.RoundTrip.Stored.Read.{stored_block_reads}
use foundations_lab.Deflate.RoundTrip.Stored.Chunks.{
  chunk_bits, length-chunk, chunk_small, chunk_pos, chunk_inside,
}

stored-IsReadAs :
    (s : Scratch) (cap : ℕ) (bytes before rest : List ℕ) (m : ℕ)
    → All IsByte bytes
    → length bytes ≤ 65535
    → length before + length bytes ≤ cap
    → length rest ≡ 8 * m
    → IsReadAs s cap 0 (lsb 5 0 ++ (stored_body bytes ++ rest)) before (before ++ bytes) rest
unfolding read_block
stored-IsReadAs s cap bytes before rest m small short room whole r o clear e = (
  stored_block cap r before,
  refl,
  stored_block_reads cap bytes r before rest m o clear small short room whole e,
)

-- One stored block at the front of the stream.
pub stored_round :
    (fuel : ℕ) (s : Scratch) (cap : ℕ) (final : Bool) (r : BitReader) (bytes before rest : List ℕ)
    (m : ℕ)
    → IsOpen r
    → r.underflow ≡ false
    → All IsByte bytes
    → length bytes ≤ 65535
    → length before + length bytes ≤ cap
    → length rest ≡ 8 * m
    → pending r ≡ stored_bits final bytes ++ rest
    → IsRounded fuel s cap
        (flag final)
        (before ++ bytes)
        rest
        (block_loop (suc fuel) s cap r before)
stored_round fuel s cap final r bytes before rest m o clear small short room whole e =
    block_loop_reads fuel s cap (flag final) 0 r (lsb 5 0 ++ (stored_body bytes ++ rest)) before
      (before ++ bytes) rest o clear (flag_small final) (omega arith) (e ∙ shape)
      (stored-IsReadAs s cap bytes before rest m small short room whole)
  where
    flag_small : (f : Bool) → flag f < 2
    flag_small f = ground arith

    shape :
        stored_bits final bytes ++ rest
        ≡ lsb 1 (flag final) ++ (lsb 2 0 ++ (lsb 5 0 ++ (stored_body bytes ++ rest)))
    shape =
        append_assoc (lsb 1 (flag final)) (lsb 2 0 ++ (lsb 5 0 ++ stored_body bytes)) rest
        ∙ ap (λ (t : List ℕ). lsb 1 (flag final) ++ t)
            (append_assoc (lsb 2 0) (lsb 5 0 ++ stored_body bytes) rest
              ∙ ap (λ (t : List ℕ). lsb 2 0 ++ t) (append_assoc (lsb 5 0) (stored_body bytes) rest))

take-drop : (n : ℕ) (xs : List ℕ) → take n xs ++ drop n xs ≡ xs
take-drop zero xs = refl
take-drop (suc n) [] = refl
take-drop (suc n) (x ∷ xs) = ap (λ (t : List ℕ). x ∷ t) (take-drop n xs)

All-take : (n : ℕ) (xs : List ℕ) → All IsByte xs → All IsByte (take n xs)
All-take zero xs h = tt
All-take (suc n) [] h = tt
All-take (suc n) (x ∷ xs) h = (h.0, All-take n xs h.1)

All-drop : (n : ℕ) (xs : List ℕ) → All IsByte xs → All IsByte (drop n xs)
All-drop zero xs h = h
All-drop (suc n) [] h = tt
All-drop (suc n) (x ∷ xs) h = All-drop n xs h.1

-- Stored blocks are whole bytes.
chunk_bits_whole : (n : ℕ) (left : List ℕ) → (m : ℕ) × (length (chunk_bits n left) ≡ 8 * m)
unfolding chunk_bits
chunk_bits_whole zero left = (0, refl)
chunk_bits_whole (suc n) left = elim (Bool-cases (ltb 0 (length left))) [
  | inr empty ↦ rw empty (0, refl)
  | inl some_left ↦
      let chunk = chunk_of (length left) in
      let last = leb (length left) chunk in
      let (m, e) = chunk_bits_whole n (drop chunk left) in
      rw some_left (
        length (take chunk left) + 5 + m,
        omega (
          arith,
          e,
          length-append (stored_bits last (take chunk left)) (chunk_bits n (drop chunk left)),
          length-stored_bits last (take chunk left),
        ),
      )
]

-- The decoder on the blocks of an input that is not empty.
pub block_loop_chunks :
    (n fuel : ℕ) (s : Scratch) (cap : ℕ) (r : BitReader) (left before : List ℕ)
    → 0 < length left
    → length left ≤ n
    → n ≤ fuel
    → IsOpen r
    → r.underflow ≡ false
    → All IsByte left
    → length before + length left ≤ cap
    → pending r ≡ chunk_bits n left
    → block_loop fuel s cap r before ≡ some (ok (before ++ left))
unfolding chunk_bits
block_loop_chunks zero fuel s cap r left before pos enough more o clear small room e =
    absurd (omega arith)
block_loop_chunks (suc n) zero s cap r left before pos enough more o clear small room e =
    absurd (omega arith)
block_loop_chunks (suc n) (suc fuel) s cap r left before pos enough more o clear small room e =
    let len = length left in
    let chunk = chunk_of len in
    let last = leb len chunk in
    let bytes = take chunk left in
    let left' = drop chunk left in
    let (m, whole) = chunk_bits_whole n left' in
    let size = length-chunk left in
    let here : pending r ≡ stored_bits last bytes ++ chunk_bits n left' =
      rw (lt→ltb 0 len pos) at e in
    let inside = chunk_inside len in
    let round =
      stored_round fuel s cap last r bytes before (chunk_bits n left') m o clear
        (All-take chunk left small) (omega (arith, chunk_small len)) (omega arith) whole here in
    let again : (before ++ bytes) ++ left' ≡ before ++ left =
      append_assoc before bytes left' ∙ ap (λ (t : List ℕ). before ++ t) (take-drop chunk left) in
    let rest_length = length-drop chunk left in
    elim (Bool-cases last) [
      | inl final ↦
          let all : bytes ≡ left = take_all chunk left (omega tests) in
          round.is_result ∙ rw final (ap (λ (t : List ℕ). some (ok (before ++ t))) all)
      | inr goes_on ↦
          let one = chunk_pos len pos in
          round.is_result
          ∙ rw goes_on (
              block_loop_chunks n fuel s cap round.reader left' (before ++ bytes)
                (omega (tests, rest_length)) (omega (arith, rest_length, one)) (omega arith)
                round.opened round.lasts (All-drop chunk left small)
                (omega (arith, length-append before bytes, rest_length, size, inside)) round.left
              ∙ ap (λ (t : List ℕ). some (ok t)) again)
    ]
