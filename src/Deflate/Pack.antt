-- ===== src/Deflate/Pack.antt =====
-- `pack_code_lengths` of C-Deflate/src/deflate.c. The arrays `syms` and `extra` are one list of pairs.
pub mod Sent
pub mod Unpack
mod Tests
use foundations_lab.Base.{
  ℕ, zero, suc, ◌-◌, List, [], ◌∷◌, ◌++◌, length, replicate, drop, ltb, leb, ◌==◌, if◌then◌else◌,
}

-- `while (i + run < n && lengths[i + run] == len) run++;` where the list is what stands behind `i`.
unfoldable pub run_from : ℕ → List ℕ → ℕ
run_from len [] = 0
run_from len (x ∷ xs) = let rest = run_from len xs in if x == len then suc rest else 0

-- A loop `while (run >= low) { take = run > high ? high : run; … }` that writes `sym`; the result
-- is what it writes and the run left. A round takes `low` at least, so `run` rounds do.
unfoldable pub pack_runs : ℕ → ℕ → ℕ → ℕ → ℕ → List (ℕ × ℕ) × ℕ
pack_runs zero low high sym run = ([], run)
pack_runs (suc fuel) low high sym run =
    let take = if ltb high run then high else run in
    let rest = pack_runs fuel low high sym (run - take) in
    if leb low run then ((sym, take - low) ∷ rest.0, rest.1) else ([], run)

-- What one round of the outer loop writes for a run of `run` entries `len`.
unfoldable pub pack_run : ℕ → ℕ → List (ℕ × ℕ)
unfolding pack_runs
pack_run len run =
    if len == 0
    then (let (long, left) = pack_runs run 11 138 18 run in
        let (short, ones) = pack_runs left 3 10 17 left in long ++ (short ++ replicate ones (0, 0)))
    else (let (repeats, ones) = pack_runs (run - 1) 3 6 16 (run - 1) in
        (len, 0) ∷ (repeats ++ replicate ones (len, 0)))

-- The loop `while (i < n)`, with `lengths` from `i` on. A round takes one entry at least, so `n`
-- rounds do.
unfoldable pub pack_loop : ℕ → List ℕ → List (ℕ × ℕ)
unfolding run_from pack_run
pack_loop zero lengths = []
pack_loop (suc fuel) [] = []
pack_loop (suc fuel) (len ∷ rest) =
    let more = run_from len rest in pack_run len (suc more) ++ pack_loop fuel (drop more rest)

unfoldable pub pack_code_lengths : List ℕ → List (ℕ × ℕ)
unfolding pack_loop
pack_code_lengths lengths = pack_loop (length lengths) lengths
