-- ===== src/Deflate/Inflate/Progress.antt =====
-- `deflate_decompress` of C-Deflate/src/inflate.c on any input: every loop ends, and the output stays
-- within its buffer.
use foundations_lab.Base.{
  ℕ, zero, suc, ◌+◌, ◌≤◌, ◌≡◌, ◌⊎◌, inl, inr, refl, sym, ◌∙◌, arith, true, false, false≢true, List,
  [], some, length, All, ◌==◌, Bool-cases,
}
use foundations_lab.Deflate.Bits.{BitReader, br_init, br_bits}
use foundations_lab.Deflate.Bits.Reader.{IsByte, pending, IsOpen, length-pending}
use foundations_lab.Deflate.Bits.Progress.{IsAfter, IsAfter-trans, IsAfter-weaken, br_bits-IsAfter}
use foundations_lab.Deflate.Status.{Result, ok, err, input, corrupt, Result-cases}
use foundations_lab.Deflate.Huffman.{HuffDec}
use foundations_lab.Deflate.Header.{Scratch, read_dynamic_header}
use foundations_lab.Deflate.Header.Progress.{read_dynamic_header-IsAfter}
use foundations_lab.Deflate.Inflate.{
  Block, stored_block, symbol_step, symbol_loop, fixed_decoders, rounds, read_block, block_loop,
  deflate_decompress,
}
use foundations_lab.Deflate.Inflate.Rounds.{
  BlockIs, BlockIs-after, Step-cases, stored_block_lem, symbol_step_lem, was_clear,
}

-- Rounds that are enough: each takes a bit, and once the flag is set one more round ends the loop.
abbrev IsEnough : ℕ → BitReader → Type 0
IsEnough fuel r = (length (pending r) + 2 ≤ fuel) ⊎ ((r.underflow ≡ true) × (1 ≤ fuel))

rounds-IsEnough : (r : BitReader) → IsOpen r → IsEnough (rounds r) r
rounds-IsEnough r o = inl (omega (arith, length-pending r, o.0))

-- A round that took a bit, begun with the flag clear, leaves enough for the rest.
IsEnough-suc :
    (fuel : ℕ) (r r' : BitReader)
    → IsEnough (suc fuel) r
    → r.underflow ≡ false
    → IsAfter 1 r r'
    → IsEnough fuel r'
IsEnough-suc fuel r r' enough clear a = elim enough [
  | inr (u, _) ↦ absurd (false≢true (sym clear ∙ u))
  | inl k ↦ elim a.spent [ inl u ↦ inr (u, omega arith) | inr l ↦ inl (omega arith) ]
]

pub symbol_loop_lem :
    (fuel : ℕ) (lit dist : HuffDec) (cap : ℕ) (r : BitReader) (out : List ℕ)
    → IsOpen r
    → length out ≤ cap
    → IsEnough fuel r
    → (b : Block) × (symbol_loop fuel lit dist cap r out ≡ some b) × BlockIs cap r b
unfolding symbol_loop
symbol_loop_lem zero lit dist cap r out o h enough = elim enough [
  | inl k ↦ absurd (omega arith)
  | inr k ↦ absurd (omega arith)
]
symbol_loop_lem (suc fuel) lit dist cap r out o h enough =
    let step = symbol_step_lem lit dist cap r out o h in
    elim (Step-cases (symbol_step lit dist cap r out)) [
      | inr (b, ends) ↦ rw (ends, symbol_loop) (b, refl, rw ends at step)
      | inl (r', out', goes_on) ↦
          let (after, room, clear) = rw goes_on at step in
          let (b, is_b, used) =
            symbol_loop_lem fuel lit dist cap r' out' after.opened room
              (IsEnough-suc fuel r r' enough clear after) in
          rw (goes_on, symbol_loop)
            (b, is_b, BlockIs-after cap r r' b (IsAfter-weaken 1 0 r r' (omega arith) after) used)
    ]

read_block_lem :
    (s : Scratch) (cap type : ℕ) (r : BitReader) (out : List ℕ)
    → IsOpen r
    → length out ≤ cap
    → (b : Block) × (read_block s cap type r out ≡ some b) × BlockIs cap r b
unfolding read_block
read_block_lem s cap type r out o h = elim (Bool-cases (type == 0)) [
  | inl stored ↦ rw stored (stored_block cap r out, refl, stored_block_lem cap r out o)
  | inr packed ↦ elim (Bool-cases (type == 3)) [
    | inl reserved ↦ rw (packed, reserved) (err corrupt, refl, tt)
    | inr known ↦ elim (Bool-cases (type == 1)) [
      | inl fixed ↦
          rw (packed, known, fixed)
            (symbol_loop_lem (rounds r) (fixed_decoders s).0 (fixed_decoders s).1 cap r out o h
              (rounds-IsEnough r o))
      | inr dynamic ↦ elim (Result-cases (read_dynamic_header s r)) [
        | inr (e, bad) ↦ rw (packed, known, dynamic, bad) (err e, refl, tt)
        | inl (((lit, dist), r'), good) ↦
            let after = read_dynamic_header-IsAfter s r ((lit, dist), r') o good in
            let (b, is_b, used) =
              symbol_loop_lem (rounds r') lit dist cap r' out after.opened h
                (rounds-IsEnough r' after.opened) in
            rw (packed, known, dynamic, good) (b, is_b, BlockIs-after cap r r' b after used)
      ]
    ]
  ]
]

-- What is returned: an error, or no more bytes than the buffer has.
abbrev pub IsWithin : ℕ → Result (List ℕ) → Type 0
IsWithin cap (ok out) = length out ≤ cap
IsWithin cap (err e) = Unit

-- The loop goes on behind a block that ends well at `r3`, unless that was the final one.
block_loop_lem :
    (fuel : ℕ) (s : Scratch) (cap : ℕ) (r : BitReader) (out : List ℕ)
    → IsOpen r
    → length out ≤ cap
    → IsEnough fuel r
    → (x : Result (List ℕ)) × (block_loop fuel s cap r out ≡ some x) × IsWithin cap x
unfolding block_loop
block_loop_lem zero s cap r out o h enough = elim enough [
  | inl k ↦ absurd (omega arith)
  | inr k ↦ absurd (omega arith)
]
block_loop_lem (suc fuel) s cap r out o h enough =
    let r1 = (br_bits r 1).1 in
    let r2 = (br_bits r1 2).1 in
    let one = br_bits-IsAfter r 1 o (omega arith) in
    let header = IsAfter-trans 1 2 r r1 r2 one (br_bits-IsAfter r1 2 one.opened (omega arith)) in
    elim (Bool-cases r2.underflow) [
      | inl ran_out ↦ rw (ran_out, block_loop) (err input, refl, tt)
      | inr lasts ↦
          let (b, is_b, used) = read_block_lem s cap (br_bits r1 2).0 r2 out header.opened h in
          let clear = was_clear r r2 header.sticky lasts in
          elim (Result-cases b) [
            | inr (e, bad) ↦ rw (lasts, block_loop, is_b, bad) (err e, refl, tt)
            | inl ((r3, out'), good) ↦
                let (after, room) = rw good at used in
                let whole =
                  IsAfter-weaken 3 1 r r3 (omega arith) (IsAfter-trans 3 0 r r2 r3 header after) in
                let rest =
                  block_loop_lem fuel s cap r3 out' after.opened room
                    (IsEnough-suc fuel r r3 enough clear whole) in
                elim (Bool-cases ((br_bits r 1).0 == 0)) [
                  | inl goes_on ↦ rw (lasts, block_loop, is_b, good, goes_on) rest
                  | inr final ↦ rw (lasts, block_loop, is_b, good, final) (ok out', refl, room)
                ]
          ]
    ]

-- On any sequence of bytes `deflate_decompress` ends, with an error or with an output that fits
-- the buffer.
pub deflate_decompress-IsWithin :
    (s : Scratch) (bytes : List ℕ) (cap : ℕ)
    → All IsByte bytes
    → (x : Result (List ℕ)) × (deflate_decompress s bytes cap ≡ some x) × IsWithin cap x
unfolding deflate_decompress br_init
deflate_decompress-IsWithin s bytes cap h =
    let r = br_init bytes in
    let opened : IsOpen r = (omega arith, omega arith, h) in
    block_loop_lem (rounds r) s cap r [] opened (omega arith) (rounds-IsEnough r opened)
