-- ===== src/Deflate/RoundTrip/Blocks.antt =====
-- The loop over blocks of C-Deflate/src/inflate.c, on a block that is read as it was written.
use foundations_lab.Base.{
  ℕ, suc, ◌<◌, ◌≡◌, refl, ap, ◌∙◌, arith, false, List, ◌++◌, Option, some, ◌==◌, if◌then◌else◌,
}
use foundations_lab.Deflate.Stream.{lsb}
use foundations_lab.Deflate.Bits.{BitReader, br_bits}
use foundations_lab.Deflate.Bits.Reader.{pending, IsOpen}
use foundations_lab.Deflate.Bits.Fields.{br_bits_reads}
use foundations_lab.Deflate.Status.{Result, ok}
use foundations_lab.Deflate.Header.{Scratch}
use foundations_lab.Deflate.Inflate.{Block, read_block, block_loop}

-- A block that ends well at a reader with `rest` before it.
pub record EndsAt (b : Block) (out rest : List ℕ) : Type 0 where
  pub reader : BitReader
  pub returned : b ≡ ok (reader, out)
  pub left : pending reader ≡ rest
  pub opened : IsOpen reader
  pub lasts : reader.underflow ≡ false

-- At any reader with `body` before it, a block of the type is read as `out`, and `rest` is left.
abbrev pub IsReadAs : Scratch → ℕ → ℕ → List ℕ → List ℕ → List ℕ → List ℕ → Type 0
IsReadAs s cap type body before out rest =
    (r : BitReader)
    → IsOpen r
    → r.underflow ≡ false
    → pending r ≡ body
    → (b : Block) × (read_block s cap type r before ≡ some b) × EndsAt b out rest

-- A round of the loop leads to the next one, or to the end.
pub record IsRounded (fuel : ℕ) (s : Scratch) (cap final : ℕ) (out rest : List ℕ)
    (result : Option (Result (List ℕ))) : Type 0 where
  pub reader : BitReader
  pub is_result : result ≡ (if final == 0 then block_loop fuel s cap reader out else some (ok out))
  pub left : pending reader ≡ rest
  pub opened : IsOpen reader
  pub lasts : reader.underflow ≡ false

block_loop_step :
    (fuel : ℕ) (s : Scratch) (cap final type : ℕ) (r reader : BitReader) (before out : List ℕ)
    → (br_bits r 1).0 ≡ final
    → (br_bits (br_bits r 1).1 2).0 ≡ type
    → (br_bits (br_bits r 1).1 2).1.underflow ≡ false
    → read_block s cap type (br_bits (br_bits r 1).1 2).1 before ≡ some (ok (reader, out))
    → block_loop (suc fuel) s cap r before
      ≡ (if final == 0 then block_loop fuel s cap reader out else some (ok out))
unfolding block_loop
block_loop_step fuel s cap final type r reader before out f t clear b =
    rw (clear, block_loop, t, b, f) refl

pub block_loop_reads :
    (fuel : ℕ) (s : Scratch) (cap final type : ℕ) (r : BitReader) (body before out rest : List ℕ)
    → IsOpen r
    → r.underflow ≡ false
    → final < 2
    → type < 4
    → pending r ≡ lsb 1 final ++ (lsb 2 type ++ body)
    → IsReadAs s cap type body before out rest
    → IsRounded fuel s cap final out rest (block_loop (suc fuel) s cap r before)
block_loop_reads fuel s cap final type r body before out rest o clear f t e read =
    let r1 = (br_bits r 1).1 in
    let one = br_bits_reads r 1 final (lsb 2 type ++ body) o (omega arith) (omega arith) e in
    let two = br_bits_reads r1 2 type body one.opened (omega arith) (omega arith) one.left in
    let clear' = two.same_flag ∙ one.same_flag ∙ clear in
    let (b, is_b, ends) = read (br_bits r1 2).1 two.opened clear' two.left in
    record {
      reader = ends.reader;
      is_result =
          block_loop_step fuel s cap final type r ends.reader before out one.value two.value clear'
            (is_b ∙ ap some ends.returned);
      left = ends.left;
      opened = ends.opened;
      lasts = ends.lasts;
    }
