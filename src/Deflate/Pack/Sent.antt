-- ===== src/Deflate/Pack/Sent.antt =====
-- The symbols of `pack_code_lengths` of C-Deflate/src/deflate.c in their alphabet: each has the extra
-- bits for its extra value.
use foundations_lab.Base.{
  ℕ, zero, suc, ◌+◌, ◌-◌, ◌≤◌, ◌<◌, arith, List, [], ◌∷◌, ◌++◌, replicate, drop, All, All-append,
  All-replicate, ltb, leb, lt→ltb, ◌==◌, if◌then◌else◌, Bool-cases, inl, inr,
}
use foundations_lab.Deflate.Huffman.Count.{IsLength}
use foundations_lab.Deflate.Pack.{run_from, pack_runs, pack_run, pack_loop}

pub All-drop : (n : ℕ) (xs : List ℕ) → All IsLength xs → All IsLength (drop n xs)
All-drop zero xs h = h
All-drop (suc n) [] h = tt
All-drop (suc n) (x ∷ xs) h = All-drop n xs h.1

-- The values that the extra bits of a symbol can hold (RFC 1951, 3.2.7): 2, 3 and 7 bits behind 16,
-- 17 and 18, and none behind a code length.
unfoldable pub extra_values : ℕ → ℕ
extra_values symbol =
    if ltb symbol 16 then 1 else if symbol == 16 then 4 else if symbol == 17 then 8 else 128

-- A symbol of the code-length alphabet with an extra value that its bits hold.
abbrev pub CanBeSent : ℕ × ℕ → Type 0
CanBeSent (symbol, extra) = (symbol ≤ 18) × (extra < extra_values symbol)

module _ (low high symbol : ℕ) (known : symbol ≤ 18) (wide : high < low + extra_values symbol)
    (low_le : low ≤ high) where
  pack_runs-CanBeSent : (fuel run : ℕ) → All CanBeSent (pack_runs fuel low high symbol run).0
  unfolding pack_runs
  pack_runs-CanBeSent zero run = tt
  pack_runs-CanBeSent (suc fuel) run = elim (Bool-cases (leb low run)) [
    | inr short ↦ rw short tt
    | inl long ↦
        let taken = if ltb high run then high else run in
        let most : taken ≤ high = at_most in
        rw long ((known, omega arith), pack_runs-CanBeSent fuel (run - taken))
  ]
    where
      at_most : (if ltb high run then high else run) ≤ high
      at_most = ground arith

literal-CanBeSent : (v : ℕ) → v ≤ 15 → CanBeSent (v, 0)
unfolding extra_values
literal-CanBeSent v h = (omega arith, rw (lt→ltb v 16 (omega arith)) (omega arith))

pack_run-CanBeSent : (v run : ℕ) → v ≤ 15 → All CanBeSent (pack_run v run)
unfolding pack_run extra_values
pack_run-CanBeSent v run h =
    let literal = literal-CanBeSent v h in
    elim (Bool-cases (v == 0)) [
      | inl unused ↦
          let (long, left) = pack_runs run 11 138 18 run in
          let (short, ones) = pack_runs left 3 10 17 left in
          rw unused (
            All-append CanBeSent long (short ++ replicate ones (0, 0))
              (pack_runs-CanBeSent 11 138 18 (omega arith) (omega arith) (omega arith) run run)
              (All-append CanBeSent short (replicate ones (0, 0))
                (pack_runs-CanBeSent 3 10 17 (omega arith) (omega arith) (omega arith) left left)
                (All-replicate CanBeSent ones (0, 0) (literal-CanBeSent 0 (omega arith)))))
      | inr used ↦
          let (repeats, ones) = pack_runs (run - 1) 3 6 16 (run - 1) in
          rw used (
            literal,
            All-append CanBeSent repeats (replicate ones (v, 0))
                (pack_runs-CanBeSent 3 6 16 (omega arith) (omega arith) (omega arith) (run - 1)
                  (run - 1))
                (All-replicate CanBeSent ones (v, 0) literal),
          )
    ]

pub pack_loop-CanBeSent :
    (fuel : ℕ) (ls : List ℕ) → All IsLength ls → All CanBeSent (pack_loop fuel ls)
unfolding pack_loop
pack_loop-CanBeSent zero ls small = tt
pack_loop-CanBeSent (suc fuel) [] small = tt
pack_loop-CanBeSent (suc fuel) (x ∷ ls) small =
    let more = run_from x ls in
    All-append CanBeSent (pack_run x (suc more)) (pack_loop fuel (drop more ls))
      (pack_run-CanBeSent x (suc more) small.0)
      (pack_loop-CanBeSent fuel (drop more ls) (All-drop more ls small.1))
