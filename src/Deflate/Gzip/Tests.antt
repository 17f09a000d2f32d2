-- ===== src/Deflate/Gzip/Tests.antt =====
-- Runs of the CRC-32, and of the container.
use foundations_lab.Base.{
  ℕ, ◌+◌, ◌≤◌, ◌≡◌, refl, arith, true, none, inl, List, [], ◌∷◌, All, replicate,
}
use foundations_lab.Deflate.Bits.Reader.{IsByte}
use foundations_lab.Deflate.Huffman.{HuffDec}
use foundations_lab.Deflate.Header.{Scratch}
use foundations_lab.Deflate.Emit.{deflate_bound}
use foundations_lab.Deflate.Compress.{Heap}
use foundations_lab.Deflate.Gzip.{deflate_crc32, gzip_compress}
use foundations_lab.Deflate.Gzip.Register.{
  value, feed_bytes, register_crc, low_bits, feed, feed_all, add_bits,
}
use foundations_lab.Deflate.Gzip.Table.{deflate_crc32-register_crc}
use foundations_lab.Deflate.Gzip.Frame.{IsMember, gzip_compress-IsMember}

abbrev digits : List ℕ
digits = 49 ∷ 50 ∷ 51 ∷ 52 ∷ 53 ∷ 54 ∷ 55 ∷ 56 ∷ 57 ∷ []

-- The check value of CRC-32, that of the digits 1 to 9.
check_value : deflate_crc32 digits ≡ 0xcbf43926
unfolding deflate_crc32
check_value = refl

check_value_of_register : register_crc digits ≡ 0xcbf43926
unfolding register_crc feed_bytes feed_all feed add_bits low_bits value
check_value_of_register = refl

digits_bytes : All IsByte digits
digits_bytes = ground arith

deflate_crc32-register_crc_example : deflate_crc32 digits ≡ register_crc digits
deflate_crc32-register_crc_example = deflate_crc32-register_crc digits digits_bytes

abbrev heap : Heap
heap = record { tokens = true; chains = true; prev = λ i. none }

abbrev blank : HuffDec
blank = record { counts = []; symbols = replicate 286 0 }

abbrev scratch : Scratch
scratch = record { lit = blank; dist = blank; codelen = blank }

room_for_digits : 18 + deflate_bound 9 ≤ 100
unfolding deflate_bound
room_for_digits = omega arith

gzip_compress-IsMember_example : IsMember scratch digits 100 (gzip_compress heap digits 100 0)
gzip_compress-IsMember_example =
    gzip_compress-IsMember scratch heap digits 100 0 digits_bytes room_for_digits (inl refl)
