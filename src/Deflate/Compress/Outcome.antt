-- ===== src/Deflate/Compress/Outcome.antt =====
-- What comes of `deflate_compress` of C-Deflate/src/deflate.c, on every path.
use foundations_lab.Base.{
  ℕ, ◌≤◌, ◌⊎◌, ◌≡◌, true, false, List, [], none, some, length, ltb, if◌then◌else◌,
}
use foundations_lab.Deflate.Bits.{BitWriter, bw_init, bw_finish}
use foundations_lab.Deflate.Status.{Result, ok, err, output, memory}
use foundations_lab.Deflate.Window.{Token}
use foundations_lab.Deflate.Lz77.{lz77_parse}
use foundations_lab.Deflate.Emit.{emit_stored, emit_chunks}
use foundations_lab.Deflate.Compress.{Dynamic, Heap, plan_dynamic, emit_smallest}

abbrev pub effective : ℕ → ℕ
effective level = if ltb 9 level then 6 else level

-- The writer that the input is emitted to, on each path.
pub data Emission (m : Heap) (input : List ℕ) (cap level : ℕ) : BitWriter → Type 0 where
  of_nothing : length input ≡ 0 → Emission m input cap level (emit_stored (bw_init cap) [] true)
  of_chunks :
      1 ≤ length input
      → effective level ≡ 0
      → Emission m input cap level (emit_chunks (length input) (bw_init cap) input)
  of_tokens :
      1 ≤ length input
      → 1 ≤ effective level
      → m.tokens ≡ true
      → (ts : List Token) (d : Dynamic)
      → lz77_parse input (effective level) m.chains m.prev ≡ some ts
      → plan_dynamic ts ≡ some d
      → Emission m input cap level (emit_smallest (bw_init cap) input ts d)

-- The results there are: what was emitted, within the buffer; no room, where the emission fills the
-- buffer and goes on; or no memory, where an array of the parse is refused.
pub data Outcome (m : Heap) (input : List ℕ) (cap level : ℕ) : Result (List ℕ) → Type 0 where
  written :
      (w : BitWriter)
      → Emission m input cap level w
      → (bw_finish w).overflow ≡ false
      → length (bw_finish w).out ≤ cap
      → Outcome m input cap level (ok (bw_finish w).out)
  no_room :
      (w : BitWriter)
      → Emission m input cap level w
      → (bw_finish w).overflow ≡ true
      → length (bw_finish w).out ≡ cap
      → Outcome m input cap level (err output)
  no_memory :
      1 ≤ length input
      → 1 ≤ effective level
      → (m.tokens ≡ false) ⊎ (lz77_parse input (effective level) m.chains m.prev ≡ none)
      → Outcome m input cap level (err memory)
