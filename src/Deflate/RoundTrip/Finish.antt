-- ===== src/Deflate/RoundTrip/Finish.antt =====
-- The end of `deflate_compress` of C-Deflate/src/deflate.c: the bytes returned hold the bits written,
-- and the decoder of C-Deflate/src/inflate.c starts on them.
use foundations_lab.Base.{
  ℕ, ◌+◌, ◌-◌, ◌*◌, ◌%◌, ◌≤◌, ◌≡◌, refl, ap, ◌∙◌, arith, Option, some, List, ◌++◌, length,
}
use foundations_lab.Deflate.Stream.{lsb, byte_bits}
use foundations_lab.Deflate.Bits.{BitWriter, bw_init, bw_finish, br_init}
use foundations_lab.Deflate.Bits.Code.{bw_finish_bits, length-written}
use foundations_lab.Deflate.Bits.Reader.{pending, IsOpen, length-pending}
use foundations_lab.Deflate.Bits.Writer.{IsReady}
use foundations_lab.Deflate.Bits.Appends.{Appends, Fits, bw_align-IsByte}
use foundations_lab.Deflate.Status.{Result, ok}
use foundations_lab.Deflate.Compress.{finish}
use foundations_lab.Deflate.Header.{Scratch}
use foundations_lab.Deflate.Inflate.{rounds, deflate_decompress}

pub record IsFinished (w : BitWriter) (bits : List ℕ) : Type 0 where
  pub returned : finish w ≡ ok (bw_finish w).out
  pub stream : pending (br_init (bw_finish w).out) ≡ bits ++ lsb ((8 - w.bit_count) % 8) 0
  pub opened : IsOpen (br_init (bw_finish w).out)

pub finish-IsFinished :
    (w : BitWriter) (bits : List ℕ) (cap : ℕ)
    → Appends (bw_init cap) w bits
    → length bits ≤ 8 * cap
    → IsFinished w bits
unfolding finish bw_init bw_finish br_init lsb byte_bits
finish-IsFinished w bits cap a room =
    let (clear, e) =
      bw_finish_bits w a.ready
        (omega (arith, a.same_cap, length-written w, ap length a.extended, a.ready.0)) in
    record {
      returned = rw clear refl;
      stream = e ∙ ap (λ (t : List ℕ). t ++ lsb ((8 - w.bit_count) % 8) 0) a.extended;
      opened = (omega arith, omega arith, bw_align-IsByte w (a.bytes tt));
    }

pub bw_init-IsReady : (cap : ℕ) → IsReady (bw_init cap) × ((bw_init cap).bit_count ≡ 0)
unfolding bw_init
bw_init-IsReady cap = ((omega arith, omega arith, refl), refl)

pub bw_init-Fits : (cap n : ℕ) → n ≤ 8 * cap → Fits (bw_init cap) n
unfolding bw_init lsb byte_bits
bw_init-Fits cap n h = omega arith

-- The rounds that the decoder allows itself, by the bits before it.
pub rounds_start : (bytes : List ℕ) → rounds (br_init bytes) ≡ length (pending (br_init bytes)) + 9
unfolding br_init
rounds_start bytes = omega (arith, length-pending (br_init bytes))

-- The encoder's result, and that the decoder makes the input out of it.
pub record IsRestored (s : Scratch) (input : List ℕ) (result : Option (Result (List ℕ)))
    : Type 0 where
  pub bytes : List ℕ
  pub returned : result ≡ some (ok bytes)
  pub restored : deflate_decompress s bytes (length input) ≡ some (ok input)
