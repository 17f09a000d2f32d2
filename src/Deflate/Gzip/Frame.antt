-- ===== src/Deflate/Gzip/Frame.antt =====
-- The container that `gzip_compress` of C-Deflate/src/inflate.c writes, against the member format of
-- RFC 1952.
use foundations_lab.Base.{
  ℕ, ◌+◌, ◌-◌, ◌*◌, ◌/◌, ◌%◌, ◌^◌, ◌≤◌, ◌≡◌, ◌⊎◌, inl, inr, sym, ap, ap₂, ◌∙◌, subst, arith,
  bit_and, bit_and_ones, List, [], ◌∷◌, ◌++◌, All, Option, some, length, le→ltb,
}
use foundations_lab.Deflate.Bits.Reader.{IsByte}
use foundations_lab.Deflate.Status.{Result, ok}
use foundations_lab.Deflate.Header.{Scratch}
use foundations_lab.Deflate.Inflate.{deflate_decompress}
use foundations_lab.Deflate.Emit.{deflate_bound}
use foundations_lab.Deflate.Compress.{Heap, deflate_compress}
use foundations_lab.Deflate.Compress.Bounded.{deflate_compress_fits}
use foundations_lab.Deflate.RoundTrip.Finish.{IsRestored}
use foundations_lab.Deflate.RoundTrip.Stored.Whole.{deflate_compress_store-IsRestored}
use foundations_lab.Deflate.Gzip.{le_bytes, gzip_trailer, gzip_compress, deflate_crc32}
use foundations_lab.Deflate.Gzip.Register.{register_crc}
use foundations_lab.Deflate.Gzip.Table.{deflate_crc32-register_crc, register_crc_lt}

-- Four bytes as a number, the lowest first.
abbrev pub Quad : Type 0
Quad = ℕ × ℕ × ℕ × ℕ

abbrev pub quad_value : Quad → ℕ
quad_value (a, b, c, d) = a + 256 * b + 65536 * c + 16777216 * d

abbrev pub quad_bytes : Quad → List ℕ
quad_bytes (a, b, c, d) = a ∷ b ∷ c ∷ d ∷ []

abbrev pub IsQuad : Quad → Type 0
IsQuad (a, b, c, d) = IsByte a × IsByte b × IsByte c × IsByte d

-- A member of RFC 1952 as the result of a call: the two magic bytes, the method 8, no flags, no time,
-- no extra flags and an unknown system; a stream that `deflate_decompress` turns back into the bytes;
-- their CRC-32 and their number modulo 2 ^ 32.
pub record IsMember (s : Scratch) (bytes : List ℕ) (cap : ℕ) (result : Option (Result (List ℕ)))
    : Type 0 where
  pub body : List ℕ
  pub crc : Quad
  pub size : Quad
  pub returned :
      result
      ≡ some (
          ok (
            31
            ∷ 139
            ∷ 8
            ∷ 0
            ∷ 0
            ∷ 0
            ∷ 0
            ∷ 0
            ∷ 0
            ∷ 255
            ∷ (body ++ (quad_bytes crc ++ quad_bytes size))))
  pub fits : 18 + length body ≤ cap
  pub restored : deflate_decompress s body (length bytes) ≡ some (ok bytes)
  pub crc_bytes : IsQuad crc
  pub crc_value : quad_value crc ≡ register_crc bytes
  pub size_bytes : IsQuad size
  pub size_value : quad_value size ≡ length bytes % 2 ^ 32

-- The four bytes of `le_bytes`.
abbrev quad : ℕ → Quad
quad v = (v % 256, v / 256 % 256, v / 65536 % 256, v / 16777216 % 256)

quad-IsQuad : (v : ℕ) → IsQuad (quad v)
quad-IsQuad v = (omega arith, omega arith, omega arith, omega arith)

quad_value-quad : (v : ℕ) → quad_value (quad v) ≡ v % 2 ^ 32
quad_value-quad v = omega arith

le_bytes-quad : (v : ℕ) → le_bytes 4 0 v ≡ quad_bytes (quad v)
unfolding le_bytes
le_bytes-quad v =
    rw
      (
        bit_and_ones 8 (v / 1),
        bit_and_ones 8 (v / 256),
        bit_and_ones 8 (v / 65536),
        bit_and_ones 8 (v / 16777216),
      )
      (ap (λ (t : ℕ). t % 256 ∷ v / 256 % 256 ∷ v / 65536 % 256 ∷ v / 16777216 % 256 ∷ [])
        {x = v / 1} {y = v} (omega arith))

abbrev framed : List ℕ → List ℕ → Option (Result (List ℕ))
framed body trail = some (ok (31 ∷ 139 ∷ 8 ∷ 0 ∷ 0 ∷ 0 ∷ 0 ∷ 0 ∷ 0 ∷ 255 ∷ (body ++ trail)))

trailer :
    (bytes : List ℕ)
    → gzip_trailer bytes
      ≡ quad_bytes (quad (deflate_crc32 bytes))
        ++ quad_bytes (quad (bit_and (length bytes) 0xffffffff))
unfolding gzip_trailer
trailer bytes =
    ap₂ (λ (xs ys : List ℕ). xs ++ ys) (le_bytes-quad (deflate_crc32 bytes))
      (le_bytes-quad (bit_and (length bytes) 0xffffffff))

restored-IsMember :
    (s : Scratch) (m : Heap) (bytes : List ℕ) (cap level : ℕ)
    → All IsByte bytes
    → 18 ≤ cap
    → IsRestored s bytes (deflate_compress m bytes (cap - 18) level)
    → IsMember s bytes cap (gzip_compress m bytes cap level)
unfolding gzip_compress
restored-IsMember s m bytes cap level small room r =
    let count = bit_and (length bytes) 0xffffffff in
    record {
      body = r.bytes;
      crc = quad (deflate_crc32 bytes);
      size = quad count;
      returned = rw (le→ltb cap 18 room, r.returned) (ap (framed r.bytes) (trailer bytes));
      fits = omega (arith, deflate_compress_fits m bytes r.bytes (cap - 18) level r.returned);
      restored = r.restored;
      crc_bytes = quad-IsQuad (deflate_crc32 bytes);
      crc_value =
          quad_value-quad (deflate_crc32 bytes)
          ∙ omega (arith, deflate_crc32-register_crc bytes small, register_crc_lt bytes small);
      size_bytes = quad-IsQuad count;
      size_value = quad_value-quad count ∙ omega (arith, bit_and_ones 32 (length bytes));
    }

-- On bytes, with a buffer of `deflate_bound` bytes and 18 more, at level 0, or at a level where
-- `deflate_compress` for a buffer of 18 bytes less returns bytes from which `deflate_decompress`
-- restores the input: `gzip_compress` returns the bytes 31, 139 and 8, six zeros and 255, then a
-- body from which `deflate_decompress` restores the input, then four bytes that make up, the
-- lowest first, the CRC-32 of the shift register, and four that make up the length of the input
-- modulo 2 ^ 32; the body and 18 are within the buffer.
pub gzip_compress-IsMember :
    (s : Scratch) (m : Heap) (bytes : List ℕ) (cap level : ℕ)
    → All IsByte bytes
    → 18 + deflate_bound (length bytes) ≤ cap
    → (level ≡ 0) ⊎ IsRestored s bytes (deflate_compress m bytes (cap - 18) level)
    → IsMember s bytes cap (gzip_compress m bytes cap level)
gzip_compress-IsMember s m bytes cap level small room (inl store) =
    subst (λ (l : ℕ). IsMember s bytes cap (gzip_compress m bytes cap l)) (sym store)
      (restored-IsMember s m bytes cap 0 small (omega arith)
        (deflate_compress_store-IsRestored s m bytes (cap - 18) small (omega arith)))
gzip_compress-IsMember s m bytes cap level small room (inr r) =
    restored-IsMember s m bytes cap level small (omega arith) r
