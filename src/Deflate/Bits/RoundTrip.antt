-- ===== src/Deflate/Bits/RoundTrip.antt =====
-- The writer and the reader of C-Deflate/src/bits.c together: what `bw_bits` and `bw_finish` put
-- into the buffer, `br_bits` reads back field by field.
use foundations_lab.Base.{
  ℕ, ◌+◌, ◌*◌, ◌%◌, ◌^◌, ◌≤◌, ◌<◌, ◌≡◌, refl, ap, ◌∙◌, List, [], ◌∷◌, ◌++◌, append_assoc, ap₂, ◌-◌,
  arith, length, length-append, All,
}
use foundations_lab.Deflate.Stream.{lsb, byte_bits, length-lsb}
use foundations_lab.Deflate.Bits.{
  BitWriter, pos, bw_init, bw_bits, bw_finish, BitReader, br_init, br_bits,
}
use foundations_lab.Deflate.Bits.Writer.{written, IsReady}
use foundations_lab.Deflate.Bits.Code.{bw_finish_bits, length-written}
use foundations_lab.Deflate.Bits.Reader.{pending, IsOpen}
use foundations_lab.Deflate.Bits.Fields.{br_bits_reads}
use foundations_lab.Deflate.Bits.Appends.{
  Appends, Appends-start, Appends-trans, Fits, Fits-Appends, bw_bits-Appends, bw_align-IsByte,
}

-- A field is a value and its width.
abbrev pub Field : Type 0
Field = ℕ × ℕ

abbrev pub IsField : Field → Type 0
IsField (v, n) = (n ≤ 24) × (v < 2 ^ n)

unfoldable pub write_fields : BitWriter → List Field → BitWriter
write_fields w [] = w
write_fields w ((v, n) ∷ fs) = write_fields (bw_bits w v n) fs

unfoldable pub read_fields : BitReader → List Field → List ℕ
read_fields r [] = []
read_fields r ((_, n) ∷ fs) = let (v, r') = br_bits r n in v ∷ read_fields r' fs

abbrev pub total_bits : List Field → ℕ
total_bits [] = 0
total_bits ((_, n) ∷ fs) = n + total_bits fs

abbrev pub values : List Field → List ℕ
values [] = []
values ((v, _) ∷ fs) = v ∷ values fs

abbrev field_bits : List Field → List ℕ
field_bits [] = []
field_bits ((v, n) ∷ fs) = lsb n v ++ field_bits fs

length-field_bits : (fs : List Field) → length (field_bits fs) ≡ total_bits fs
length-field_bits [] = refl
length-field_bits ((v, n) ∷ fs) =
    omega (arith, length-append (lsb n v) (field_bits fs), length-lsb n v, length-field_bits fs)

write_fields_lem :
    (w : BitWriter) (fs : List Field)
    → IsReady w
    → All IsField fs
    → Fits w (total_bits fs)
    → Appends w (write_fields w fs) (field_bits fs)
unfolding write_fields
write_fields_lem w [] ready ok room = Appends-start w ready
write_fields_lem w ((v, n) ∷ fs) ready ok room =
    let one = bw_bits-Appends w v n ready ok.0.0 (omega arith) in
    let left =
      Fits-Appends w (bw_bits w v n) (lsb n v) (total_bits fs) one
        (omega (arith, length-lsb n v)) in
    Appends-trans w (bw_bits w v n) _ (lsb n v) (field_bits fs) one
      (write_fields_lem (bw_bits w v n) fs one.ready ok.1 left)

read_fields_lem :
    (r : BitReader) (fs : List Field) (rest : List ℕ)
    → IsOpen r
    → All IsField fs
    → pending r ≡ field_bits fs ++ rest
    → read_fields r fs ≡ values fs
unfolding read_fields
read_fields_lem r [] rest o ok e = refl
read_fields_lem r ((v, n) ∷ fs) rest o ok e =
    let one =
      br_bits_reads r n v (field_bits fs ++ rest) o ok.0.0 ok.0.1
        (e ∙ append_assoc (lsb n v) (field_bits fs) rest) in
    ap₂ ◌∷◌ one.value (read_fields_lem (br_bits r n).1 fs rest one.opened ok.1 one.left)

-- Fields of up to 24 bits that fit the buffer together are read back by `br_bits` as `bw_bits`
-- wrote them, once `bw_finish` has ended the stream.
pub read_fields-write_fields :
    (cap : ℕ) (fs : List Field)
    → All IsField fs
    → total_bits fs ≤ 8 * cap
    → read_fields (br_init (bw_finish (write_fields (bw_init cap) fs)).out) fs ≡ values fs
unfolding bw_init bw_finish br_init lsb byte_bits
read_fields-write_fields cap fs ok room =
    let w = write_fields (bw_init cap) fs in
    let all = write_fields_lem (bw_init cap) fs (omega arith, omega arith, refl) ok (omega arith) in
    let fits : 8 * pos w + w.bit_count ≤ 8 * w.cap = omega (
      arith,
      all.same_cap,
      length-written w,
      ap length all.extended,
      length-append (written (bw_init cap)) (field_bits fs),
      length-field_bits fs,
    ) in
    let pad = lsb ((8 - w.bit_count) % 8) 0 in
    let finished = (bw_finish_bits w all.ready (omega arith)).1 in
    read_fields_lem (br_init (bw_finish w).out) fs pad
      (omega arith, omega arith, bw_align-IsByte w (all.bytes tt)) ok
      (finished ∙ ap (λ (t : List ℕ). t ++ pad) all.extended)
