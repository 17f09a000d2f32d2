-- ===== src/Deflate/Gzip.antt =====
-- The end of C-Deflate/src/inflate.c: the CRC-32 and the gzip container.
pub mod Frame
pub mod Register
pub mod Digits
pub mod Table
mod Tests
use foundations_lab.Base.{
  ℕ, zero, suc, ◌+◌, ◌-◌, ◌*◌, ◌/◌, ◌^◌, bit_and, bit_xor, List, [], ◌∷◌, ◌++◌, Option, none, some,
  length, get_or, ltb, ◌==◌, if◌then◌else◌,
}
use foundations_lab.Deflate.Status.{Result, ok, err, output}
use foundations_lab.Deflate.Compress.{Heap, deflate_compress}

-- One round of the inner loop over `k`.
unfoldable pub crc_shift : ℕ → ℕ
crc_shift c = if bit_and c 1 == 0 then c / 2 else bit_xor 0xedb88320 (c / 2)

unfoldable pub crc_shifts : ℕ → ℕ → ℕ
unfolding crc_shift
crc_shifts zero c = c
crc_shifts (suc k) c = crc_shifts k (crc_shift c)

-- `table` from the entry `i` on; it is built once and not changed after.
unfoldable pub crc_table : ℕ → ℕ → List ℕ
unfolding crc_shifts
crc_table zero i = []
crc_table (suc left) i = crc_shifts 8 i ∷ crc_table left (i + 1)

unfoldable pub crc_loop : List ℕ → List ℕ → ℕ → ℕ
crc_loop table [] crc = crc
crc_loop table (b ∷ bs) crc =
    crc_loop table bs (bit_xor (get_or table (bit_and (bit_xor crc b) 0xff) 0) (crc / 2 ^ 8))

unfoldable pub deflate_crc32 : List ℕ → ℕ
unfolding crc_table crc_loop
deflate_crc32 bytes = bit_xor (crc_loop (crc_table 256 0) bytes 0xffffffff) 0xffffffff

-- `for (i < 4) out[pos++] = (v >> (8 * i)) & 0xFF;` from `i` on, with `left` rounds to go.
unfoldable pub le_bytes : ℕ → ℕ → ℕ → List ℕ
le_bytes zero i v = []
le_bytes (suc left) i v = bit_and (v / 2 ^ (8 * i)) 0xff ∷ le_bytes left (i + 1) v

abbrev pub gzip_header : List ℕ
gzip_header = 0x1f ∷ 0x8b ∷ 8 ∷ 0 ∷ 0 ∷ 0 ∷ 0 ∷ 0 ∷ 0 ∷ 255 ∷ []

unfoldable pub gzip_trailer : List ℕ → List ℕ
unfolding le_bytes
gzip_trailer bytes =
    le_bytes 4 0 (deflate_crc32 bytes) ++ le_bytes 4 0 (bit_and (length bytes) 0xffffffff)

unfoldable pub gzip_compress : Heap → List ℕ → ℕ → ℕ → Option (Result (List ℕ))
unfolding gzip_trailer
gzip_compress m bytes cap level =
    if ltb cap 18 then some (err output) else elim (deflate_compress m bytes (cap - 18) level) [
      | none ↦ none
      | some (err e) ↦ some (err e)
      | some (ok body) ↦ some (ok (gzip_header ++ (body ++ gzip_trailer bytes)))
    ]
