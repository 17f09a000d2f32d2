-- ===== src/Deflate/Bits/Tests.antt =====
-- Runs of the bit writer and the bit reader.
use foundations_lab.Base.{◌≡◌, ◌++◌, drop, false, arith, refl, [], ◌∷◌, true}
use foundations_lab.Deflate.Stream.{lsb, msb, byte_bits}
use foundations_lab.Deflate.Bits.Writer.{written, IsReady, bw_bits_appends, bw_bits_overflows}
use foundations_lab.Deflate.Bits.Code.{bw_code_appends, bw_finish_bits}
use foundations_lab.Deflate.Bits.Reader.{pending, IsOpen, length-pending}
use foundations_lab.Deflate.Bits.Fields.{
  br_bits-IsOpen, br_bits_splits, br_bits_underflow, br_align_drops,
}
use foundations_lab.Deflate.Bits.RoundTrip.{write_fields, read_fields, read_fields-write_fields}
use foundations_lab.Deflate.Bits.{
  pos, BitReader, br_align, bw_finish, BitWriter, bw_init, bw_bits, bw_code, bw_align, br_init,
  br_bits,
}

abbrev header_bits : BitWriter
unfolding bw_align bw_init bw_code
header_bits = bw_align (bw_code (bw_bits (bw_bits (bw_init 4) 1 1) 2 2) 6 3)

out-header_bits : header_bits.out ≡ 0x1d ∷ []
unfolding bw_align bw_init bw_code
out-header_bits = refl

field_of_sixteen : (bw_bits (bw_bits (bw_init 4) 1 3) 0xabcd 16).out ≡ 0x69 ∷ 0x5e ∷ []
unfolding bw_bits bw_init
field_of_sixteen = refl

overflow_is_latched : (bw_bits (bw_init 1) 0xabcd 16).overflow ≡ true
unfolding bw_bits bw_init
overflow_is_latched = refl

read_back : (br_bits (br_bits (br_init (0x69 ∷ 0x5e ∷ 5 ∷ [])) 3).1 16).0 ≡ 0xabcd
unfolding br_bits br_init
read_back = refl

read_past_end : (br_bits (br_init (7 ∷ [])) 9).1.underflow ≡ true
unfolding br_bits br_init
read_past_end = refl

read_fields-write_fields_example :
    read_fields
      (br_init (bw_finish (write_fields (bw_init 3) ((5, 3) ∷ (1000, 10) ∷ []))).out)
      ((5, 3) ∷ (1000, 10) ∷ [])
    ≡ 5 ∷ 1000 ∷ []
read_fields-write_fields_example =
    read_fields-write_fields 3 ((5, 3) ∷ (1000, 10) ∷ [])
      ((omega arith, omega arith), ((omega arith, omega arith), tt)) (omega arith)

-- A writer with three bits waiting, and a reader with two bytes before it.
abbrev waiting : BitWriter
waiting = record { out = 9 ∷ []; cap = 3; bit_buf = 5; bit_count = 3; overflow = false }

waiting-IsReady : IsReady waiting
waiting-IsReady = (omega arith, omega arith, refl)

bw_bits_appends_example :
    IsReady (bw_bits waiting 300 12)
    × (written (bw_bits waiting 300 12) ≡ written waiting ++ lsb 12 300)
    × ((bw_bits waiting 300 12).cap ≡ 3)
bw_bits_appends_example = bw_bits_appends waiting 300 12 waiting-IsReady (omega arith) (omega arith)

bw_bits_overflows_example :
    ((bw_bits waiting 300 22).overflow ≡ true) × (pos (bw_bits waiting 300 22) ≡ 3)
bw_bits_overflows_example =
    bw_bits_overflows waiting 300 22 waiting-IsReady (omega arith) (omega arith) (omega arith)

bw_code_appends_example :
    IsReady (bw_code waiting 6 4)
    × (written (bw_code waiting 6 4) ≡ written waiting ++ msb 4 6)
    × ((bw_code waiting 6 4).cap ≡ 3)
bw_code_appends_example = bw_code_appends waiting 6 4 waiting-IsReady (omega arith) (omega arith)

bw_finish_bits_example :
    ((bw_finish waiting).overflow ≡ false)
    × (byte_bits (bw_finish waiting).out ≡ written waiting ++ lsb 5 0)
bw_finish_bits_example = bw_finish_bits waiting waiting-IsReady (omega arith)

abbrev two_bytes : BitReader
two_bytes = record {
  input = 200 ∷ 17 ∷ [];
  next = 0;
  bit_buf = 0;
  bit_count = 0;
  underflow = false;
}

two_bytes-IsOpen : IsOpen two_bytes
two_bytes-IsOpen = (omega arith, omega arith, (omega arith, (omega arith, tt)))

br_bits_splits_example :
    (pending two_bytes ≡ lsb 11 (br_bits two_bytes 11).0 ++ pending (br_bits two_bytes 11).1)
    × ((br_bits two_bytes 11).1.underflow ≡ false)
br_bits_splits_example =
    br_bits_splits two_bytes 11 two_bytes-IsOpen (omega arith)
      (omega (arith, length-pending two_bytes))

br_bits_underflow_example : (br_bits two_bytes 17).1.underflow ≡ true
br_bits_underflow_example =
    br_bits_underflow two_bytes 17 two_bytes-IsOpen (omega arith)
      (omega (arith, length-pending two_bytes))

br_align_drops_example :
    (pending (br_align (br_bits two_bytes 3).1)
      ≡ byte_bits (drop (br_bits two_bytes 3).1.next (br_bits two_bytes 3).1.input))
    × IsOpen (br_align (br_bits two_bytes 3).1)
    × ((br_align (br_bits two_bytes 3).1).underflow ≡ (br_bits two_bytes 3).1.underflow)
br_align_drops_example =
    br_align_drops (br_bits two_bytes 3).1
      (br_bits-IsOpen two_bytes 3 two_bytes-IsOpen (omega arith)).0
