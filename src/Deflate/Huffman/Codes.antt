-- ===== src/Deflate/Huffman/Codes.antt =====
-- `huff_assign_codes` of C-Deflate/src/huffman.c gives each used symbol the first code of its length
-- plus its rank among the symbols of that length (RFC 1951, 3.2.2).
use native.Mathlib.Nat.{pow-le-pow_right, mod-eq_of_lt}
use foundations_lab.Base.{
  ℕ, zero, suc, ◌+◌, ◌-◌, ◌*◌, ◌^◌, ◌≤◌, ◌<◌, ◌≡◌, ◌≢◌, refl, ap, ◌∙◌, sym, List, [], ◌∷◌, arith,
  get_or, set, take, length, length-set, get_or-set_self, get_or-set_ne, ◌==◌, All, ==→eq, ==→ne,
  tests, Bool-cases, inl, inr,
}
use foundations_lab.Deflate.Bits.{u32}
use foundations_lab.Deflate.Huffman.{
  u16, zeros, bump, count_lengths, first_codes, next_codes, assign, huff_assign_codes,
}
use foundations_lab.Deflate.Huffman.Count.{
  count, get_or-bump, length-bump, IsLength, IsLength-at, HasRoom, bump-HasRoom, weaken-HasRoom,
  count_lengths-zeros, get_or-zeros, length-zeros,
}
use foundations_lab.Deflate.Huffman.Kraft.{used, first_code, first_code-next, IsKraft}

pub first_code-le :
    (ls : List ℕ) (l : ℕ) → IsKraft ls → l ≤ 15 → first_code ls l + used l ls ≤ 2 ^ 15
first_code-le ls l kraft h =
    let bound : 2 ^ l ≤ 2 ^ 15 = pow-le-pow_right (omega arith) {j = 15} h in
    omega (arith, kraft l h)

-- One round of the loop over `bits`.
next_value :
    (ls bl_count : List ℕ) (b : ℕ)
    → IsKraft ls
    → b ≤ 14
    → get_or bl_count b 0 ≡ used b ls
    → u32 (u32 (first_code ls b + get_or bl_count (b + 1 - 1) 0) * 2) ≡ first_code ls (b + 1)
next_value ls bl_count b kraft h same =
    let here : b + 1 - 1 ≡ b = omega arith in
    rw here (omega (arith, same, first_code-le ls b kraft (omega arith), first_code-next ls b))

small_code : (ls : List ℕ) (l : ℕ) → IsKraft ls → l ≤ 15 → u16 (first_code ls l) ≡ first_code ls l
small_code ls l kraft h = mod-eq_of_lt (omega (arith, first_code-le ls l kraft h))

-- Each entry that the loop over `bits` has passed holds the first code of its length.
first_codes_lem :
    (left b l : ℕ) (bl_count next ls : List ℕ)
    → IsKraft ls
    → ((m : ℕ) → m ≤ 15 → get_or bl_count m 0 ≡ used m ls)
    → length next ≡ 17
    → b + left ≡ 15
    → (l ≤ b → get_or next l 0 ≡ first_code ls l)
    → l ≤ 15
    → get_or (first_codes left (b + 1) (first_code ls b) bl_count next) l 0 ≡ first_code ls l
unfolding first_codes
first_codes_lem zero b l bl_count next ls kraft same sized e done hi = done (omega arith)
first_codes_lem (suc left) b l bl_count next ls kraft same sized e done hi =
    let code = first_code ls (b + 1) in
    let next' = set next (b + 1) code in
    let done' : l ≤ b + 1 → get_or next' l 0 ≡ first_code ls l = λ h.
      elim (Bool-cases (l == b + 1)) [
        | inl here ↦ rw (==→eq l (b + 1) here) (get_or-set_self next (b + 1) code 0 (omega arith))
        | inr before ↦
            get_or-set_ne next (b + 1) l code 0 (λ e. ==→ne l (b + 1) before (sym e))
            ∙ done (omega tests)
      ] in
    rw
      (
        next_value ls bl_count b kraft (omega arith) (same b (omega arith)),
        small_code ls (b + 1) kraft (omega arith),
      )
      (first_codes_lem left (b + 1) l bl_count next' ls kraft same
        (length-set next (b + 1) code ∙ sized) (omega arith) done' hi)

-- The last loop: the code of entry `i` is that of its length, and the entries of that length before
-- it come off.
assign_lem :
    (ls next : List ℕ) (i l : ℕ)
    → i < length ls
    → get_or ls i 0 ≡ l
    → 0 < l
    → All IsLength ls
    → length next ≡ 17
    → HasRoom next (length ls)
    → get_or (assign ls next) i 0 ≡ get_or next l 0 + count l (take i ls)
unfolding assign
assign_lem [] next i l h e lo small sized room = absurd (omega arith)
assign_lem (x ∷ ls) next zero l h e lo small sized room = ground arith
assign_lem (x ∷ ls) next (suc i) l h e lo small sized room = elim (Bool-cases (x == 0)) [
  | inl unused ↦ rw unused (
      ground (
        arith,
        assign_lem ls next i l (omega arith) e lo small.1 sized
            (weaken-HasRoom next (length ls) room),
      ))
  | inr in_use ↦ rw in_use (
      ground (
        arith,
        get_or-bump next x l,
        room x small.0,
        assign_lem ls (bump next x) i l (omega arith) e lo small.1 (rw length-bump sized)
            (bump-HasRoom next x (length ls) (omega arith) small.0 room),
      ))
]

length-first_codes :
    (left b code : ℕ) (bl_count next : List ℕ)
    → length (first_codes left b code bl_count next) ≡ length next
unfolding first_codes
length-first_codes zero b code bl_count next = refl
length-first_codes (suc left) b code bl_count next =
    length-first_codes left (b + 1) _ bl_count _ ∙ length-set next b _

length-next_codes : (bl_count : List ℕ) → length (next_codes bl_count) ≡ 17
unfolding next_codes
length-next_codes bl_count = length-first_codes 15 1 0 bl_count (zeros 17) ∙ length-zeros 17

next_codes_lem :
    (ls : List ℕ) (l : ℕ)
    → All IsLength ls
    → IsKraft ls
    → length ls < 2 ^ 15
    → l ≤ 15
    → get_or (next_codes (count_lengths ls (zeros 16))) l 0 ≡ first_code ls l
unfolding next_codes first_code used
next_codes_lem ls l small kraft short h =
    first_codes_lem 15 0 l (count_lengths ls (zeros 16)) (zeros 17) ls kraft
      (λ m k. count_lengths-zeros ls m small (omega arith)) (length-zeros 17) refl
      (λ k. let zeroth : l ≡ 0 = omega arith in rw zeroth (get_or-zeros 17 0)) h

-- On fewer than 2 ^ 15 lengths of at most 15 whose codes fit, a used symbol's code is the first
-- code of its length plus the number of symbols of that length before it.
pub huff_assign_codes_lem :
    (ls : List ℕ) (i : ℕ)
    → All IsLength ls
    → IsKraft ls
    → length ls < 2 ^ 15
    → i < length ls
    → get_or ls i 0 ≢ 0
    → get_or (huff_assign_codes ls) i 0
      ≡ first_code ls (get_or ls i 0) + count (get_or ls i 0) (take i ls)
unfolding huff_assign_codes
huff_assign_codes_lem ls i small kraft short h in_use =
    let next = next_codes (count_lengths ls (zeros 16)) in
    let l = get_or ls i 0 in
    let top = IsLength-at ls i small in
    let first = λ (m : ℕ) (k : m ≤ 15). next_codes_lem ls m small kraft short k in
    assign_lem ls next i l h refl (omega arith) small (length-next_codes _)
      (λ m k. omega (arith, first m k, first_code-le ls m kraft k))
    ∙ ap (λ (t : ℕ). t + count l (take i ls)) (first l top)
