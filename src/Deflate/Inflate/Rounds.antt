-- ===== src/Deflate/Inflate/Rounds.antt =====
-- One round of each loop of `deflate_decompress` of C-Deflate/src/inflate.c, on any input: the reader
-- goes on, and the output stays within its buffer.
use foundations_lab.Base.{
  ℕ, zero, suc, ◌+◌, ◌-◌, ◌^◌, ◌≤◌, ◌≡◌, ◌⊎◌, inl, inr, refl, ◌∙◌, sym, arith, true, false, List,
  [], ◌∷◌, ◌++◌, length, length-append, get_or, ltb, leb, ◌==◌, bit_and, Bool-cases, tests,
  false≢true,
}
use foundations_lab.Deflate.Bits.{BitReader, br_bits, br_align}
use foundations_lab.Deflate.Bits.Reader.{IsOpen}
use foundations_lab.Deflate.Bits.Progress.{
  IsAfter, IsAfter-start, IsAfter-trans, IsAfter-weaken, br_bits-IsAfter, br_align-IsAfter,
}
use foundations_lab.Deflate.Tables.{length_base, length_extra, dist_base, dist_extra}
use foundations_lab.Deflate.Status.{ok, err, Result-cases}
use foundations_lab.Deflate.Tables.Search.{length_extra_small, dist_extra_small}
use foundations_lab.Deflate.Huffman.{HuffDec, huff_decode}
use foundations_lab.Deflate.Huffman.Progress.{huff_decode-IsAfter}
use foundations_lab.Deflate.Window.Copy.{length-copy_match}
use foundations_lab.Deflate.Inflate.{
  Block, Step, more, block_end, stored_loop, stored_block, match_distance, match_step, symbol_step,
}

-- A block that ends well has used the stream, and stays within the buffer.
abbrev pub BlockIs : ℕ → BitReader → Block → Type 0
BlockIs cap r (ok (r', out)) = IsAfter 0 r r' × (length out ≤ cap)
BlockIs cap r (err e) = Unit

-- A round that leads to another one began with the flag clear, and took a bit.
abbrev pub StepIs : ℕ → BitReader → Step → Type 0
StepIs cap r (more r' out) = IsAfter 1 r r' × (length out ≤ cap) × (r.underflow ≡ false)
StepIs cap r (block_end b) = BlockIs cap r b

-- What a later reader does, an earlier one does.
pub BlockIs-after :
    (cap : ℕ) (r r' : BitReader) (b : Block) → IsAfter 0 r r' → BlockIs cap r' b → BlockIs cap r b
BlockIs-after cap r r' (ok (r'', out)) a (after, h) = (IsAfter-trans 0 0 r r' r'' a after, h)
BlockIs-after cap r r' (err e) a h = tt

stored_loop_lem :
    (left cap : ℕ) (r : BitReader) (out : List ℕ)
    → IsOpen r
    → length out + left ≤ cap
    → BlockIs cap r (stored_loop left r out)
unfolding stored_loop
stored_loop_lem zero cap r out o h = (IsAfter-start r o, omega arith)
stored_loop_lem (suc left) cap r out o h =
    let r' = (br_bits r 8).1 in
    let byte = IsAfter-weaken 8 0 r r' (omega arith) (br_bits-IsAfter r 8 o (omega arith)) in
    let longer = out ++ ((br_bits r 8).0 ∷ []) in
    elim (Bool-cases r'.underflow) [
      | inl ran_out ↦ rw ran_out tt
      | inr lasts ↦ rw lasts (
          BlockIs-after cap r r' (stored_loop left r' longer) byte (
            stored_loop_lem left cap r' longer byte.opened
              (omega (arith, length-append out ((br_bits r 8).0 ∷ [])))))
    ]

pub stored_block_lem :
    (cap : ℕ) (r : BitReader) (out : List ℕ) → IsOpen r → BlockIs cap r (stored_block cap r out)
unfolding stored_block
stored_block_lem cap r out o =
    let r0 = br_align r in
    let r1 = (br_bits r0 16).1 in
    let r2 = (br_bits r1 16).1 in
    let len = (br_bits r0 16).0 in
    let aligned = br_align-IsAfter r o in
    let one =
      IsAfter-trans 0 16 r r0 r1 aligned (br_bits-IsAfter r0 16 aligned.opened (omega arith)) in
    let two = IsAfter-trans 16 16 r r1 r2 one (br_bits-IsAfter r1 16 one.opened (omega arith)) in
    let after = IsAfter-weaken 32 0 r r2 (omega arith) two in
    elim (Bool-cases r2.underflow) [
      | inl ran_out ↦ rw ran_out tt
      | inr lasts ↦
          elim (Bool-cases
            (bit_and len 0xffff == bit_and (2 ^ 32 - 1 - (br_bits r1 16).0) 0xffff)) [
              | inr differ ↦ rw (lasts, differ) tt
              | inl agree ↦ elim (Bool-cases (ltb cap (length out + len))) [
                | inl full ↦ rw (lasts, agree, full) tt
                | inr room ↦
                    rw (lasts, agree, room)
                      (BlockIs-after cap r r2 (stored_loop len r2 out) after
                        (stored_loop_lem len cap r2 out after.opened (omega tests)))
              ]
            ]
    ]

-- Behind a decoded length: `r` began the round, with the flag clear, and `r'` stands behind the symbol.
module _ (cap : ℕ) (r : BitReader) (clear : r.underflow ≡ false) (dist : HuffDec)
    (out : List ℕ) where
  match_distance_lem :
      (r' : BitReader) (len : ℕ)
      → IsAfter 1 r r'
      → StepIs cap r (match_distance dist cap r' out len)
  unfolding match_distance
  match_distance_lem r' len a =
      let r1 = (huff_decode dist r').1 in
      let one = IsAfter-trans 1 1 r r' r1 a (huff_decode-IsAfter dist r' a.opened) in
      elim (Result-cases (huff_decode dist r').0) [
        | inr (e, bad) ↦ rw (bad, match_distance) tt
        | inl (c, good) ↦
            let extra = br_bits r1 (get_or dist_extra c 0) in
            let distance = get_or dist_base c 0 + extra.0 in
            let two =
              IsAfter-trans 2 (get_or dist_extra c 0) r r1 extra.1 one
                (br_bits-IsAfter r1 (get_or dist_extra c 0) one.opened (dist_extra_small c)) in
            let after = IsAfter-weaken (2 + get_or dist_extra c 0) 1 r extra.1 (omega arith) two in
            elim (Bool-cases (leb 30 c)) [
              | inl unknown ↦ rw (good, match_distance, unknown) tt
              | inr known ↦ elim (Bool-cases (ltb (length out) distance)) [
                | inl too_far ↦ rw (good, match_distance, known, too_far) tt
                | inr near ↦ elim (Bool-cases (ltb cap (length out + len))) [
                  | inl full ↦ rw (good, match_distance, known, near, full) tt
                  | inr room ↦
                      rw (good, match_distance, known, near, room)
                        (
                          after,
                          omega (tests, length-copy_match len (length out - distance) out),
                          clear,
                        )
                ]
              ]
            ]
      ]

  match_step_lem :
      (r' : BitReader) (lc : ℕ) → IsAfter 1 r r' → StepIs cap r (match_step dist cap r' out lc)
  unfolding match_step
  match_step_lem r' lc a = elim (Bool-cases (leb 29 lc)) [
    | inl unknown ↦ rw unknown tt
    | inr known ↦
        let n = get_or length_extra lc 0 in
        let extra = br_bits r' n in
        let after =
          IsAfter-trans 1 n r r' extra.1 a
            (br_bits-IsAfter r' n a.opened (length_extra_small lc)) in
        rw known (
          match_distance_lem extra.1 (get_or length_base lc 0 + extra.0)
            (IsAfter-weaken (1 + n) 1 r extra.1 (omega arith) after))
  ]

pub was_clear :
    (r r' : BitReader)
    → (r.underflow ≡ true → r'.underflow ≡ true)
    → r'.underflow ≡ false
    → r.underflow ≡ false
was_clear r r' sticky h = elim (Bool-cases r.underflow) [
  | inl set_flag ↦ absurd (false≢true (sym h ∙ sticky set_flag))
  | inr clear ↦ clear
]

pub symbol_step_lem :
    (lit dist : HuffDec) (cap : ℕ) (r : BitReader) (out : List ℕ)
    → IsOpen r
    → length out ≤ cap
    → StepIs cap r (symbol_step lit dist cap r out)
unfolding symbol_step
symbol_step_lem lit dist cap r out o h =
    let r' = (huff_decode lit r).1 in
    let after = huff_decode-IsAfter lit r o in
    elim (Result-cases (huff_decode lit r).0) [
      | inr (e, bad) ↦ rw (bad, symbol_step) tt
      | inl (s, good) ↦ elim (Bool-cases r'.underflow) [
        | inl ran_out ↦ rw (good, symbol_step, ran_out) tt
        | inr lasts ↦
            let clear = was_clear r r' after.sticky lasts in
            elim (Bool-cases (s == 256)) [
              | inl ends ↦
                  rw (good, symbol_step, lasts, ends)
                    (IsAfter-weaken 1 0 r r' (omega arith) after, h)
              | inr goes_on ↦ elim (Bool-cases (ltb s 256)) [
                | inr is_match ↦
                    rw (good, symbol_step, lasts, goes_on, is_match)
                      (match_step_lem cap r clear dist out r' (s - 257) after)
                | inl literal ↦ elim (Bool-cases (leb cap (length out))) [
                  | inl full ↦ rw (good, symbol_step, lasts, goes_on, literal, full) tt
                  | inr room ↦
                      rw (good, symbol_step, lasts, goes_on, literal, room)
                        (after, omega (tests, length-append out (s ∷ [])), clear)
                ]
              ]
            ]
      ]
    ]

-- To split on a computed step and keep the equation.
pub Step-cases :
    (s : Step)
    → ((r : BitReader) × (out : List ℕ) × (s ≡ more r out)) ⊎ ((b : Block) × (s ≡ block_end b))
Step-cases (more r out) = inl (r, out, refl)
Step-cases (block_end b) = inr (b, refl)
