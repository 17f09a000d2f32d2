-- ===== src/Deflate/Tree/Single.antt =====
-- `huff_build_lengths` of C-Deflate/src/huffman.c where one symbol alone is used.
use foundations_lab.Base.{
  ℕ, zero, suc, ◌+◌, ◌≤◌, ◌<◌, ◌≡◌, ◌≢◌, refl, ap, ◌∙◌, arith, none, some, List, [], ◌∷◌, ◌++◌,
  length, length-append, length-replicate, get_or, set, replicate, le→leb, ◌==◌, ne→==,
  if◌then◌else◌,
}
use foundations_lab.Deflate.Huffman.{zeros}
use foundations_lab.Deflate.Tree.{
  Node, leaves, mark_first, build_once, map_back, limit_loop, huff_build_lengths,
}

-- `i` unused symbols, one used `f` times, and `j` unused ones.
abbrev pub lone : ℕ → ℕ → ℕ → List ℕ
lone i f j = replicate i 0 ++ (f ∷ replicate j 0)

abbrev leaf : ℕ → Node
leaf f = record { freq = f; children = none }

leaves-unused : (j : ℕ) → leaves (replicate j 0) ≡ []
unfolding leaves
leaves-unused zero = refl
leaves-unused (suc j) = leaves-unused j

leaves-lone : (i f j : ℕ) → f ≢ 0 → leaves (lone i f j) ≡ leaf f ∷ []
unfolding leaves
leaves-lone zero f j h = rw (ne→== f 0 h) (ap (λ (t : List Node). leaf f ∷ t) (leaves-unused j))
leaves-lone (suc i) f j h = leaves-lone i f j h

mark_first-lone :
    (i f j k : ℕ) (ls : List ℕ) → f ≢ 0 → mark_first (lone i f j) k ls ≡ set ls (k + i) 1
unfolding mark_first
mark_first-lone zero f j k ls h =
    rw (ne→== f 0 h) (ap (λ (n : ℕ). set ls n 1) {x = k} {y = k + 0} (omega arith))
mark_first-lone (suc i) f j k ls h =
    mark_first-lone i f j (k + 1) ls h
    ∙ ap (λ (n : ℕ). set ls n 1) {x = k + 1 + i} {y = k + suc i} (omega arith)

map_back-unused : (j k : ℕ) (ls : List ℕ) → map_back (replicate j 0) k ls ≡ replicate j 0
unfolding map_back
map_back-unused zero k ls = refl
map_back-unused (suc j) k ls = ap (λ (t : List ℕ). 0 ∷ t) (map_back-unused j k ls)

map_back-lone :
    (i f j : ℕ) (ls : List ℕ) → f ≢ 0 → map_back (lone i f j) 0 ls ≡ lone i (get_or ls 0 0) j
unfolding map_back
map_back-lone zero f j ls h =
    rw (ne→== f 0 h) (ap (λ (t : List ℕ). get_or ls 0 0 ∷ t) (map_back-unused j 1 ls))
map_back-lone (suc i) f j ls h = ap (λ (t : List ℕ). 0 ∷ t) (map_back-lone i f j ls h)

build_once-lone :
    (i f j : ℕ) → f ≢ 0 → build_once (lone i f j) ≡ some (1, set (zeros (length (lone i f j))) i 1)
unfolding build_once
build_once-lone i f j h = rw (leaves-lone i f j h) (
    ap (λ (t : List ℕ). some (1, t))
      (mark_first-lone i f j 0 (zeros (length (lone i f j))) h
        ∙ ap (λ (n : ℕ). set (zeros (length (lone i f j))) n 1) {x = 0 + i} {y = i} (omega arith)))

-- The length that the loop reads for the symbol: the one written at the symbol's own index, if that
-- is the index of the first leaf.
first_leaf : (n i : ℕ) → i < n → get_or (set (zeros n) i 1) 0 0 ≡ (if i == 0 then 1 else 0)
unfolding zeros
first_leaf zero i h = absurd (omega arith)
first_leaf (suc n) zero h = refl
first_leaf (suc n) (suc i) h = rw (ne→== (suc i) 0 (omega arith)) refl

-- Where one symbol alone has a frequency that is not 0, and the limit is at least 1,
-- `huff_build_lengths` gives it the length 1 if it is the first symbol, and 0 otherwise.
pub huff_build_lengths-lone :
    (i f j limit : ℕ)
    → f ≢ 0
    → 1 ≤ limit
    → huff_build_lengths (lone i f j) limit ≡ some (lone i (if i == 0 then 1 else 0) j)
unfolding huff_build_lengths limit_loop
huff_build_lengths-lone i f j limit h small =
    let n = length (lone i f j) in
    let inside : i < n =
      omega
        (arith, length-append (replicate i 0) (f ∷ replicate j 0), length-replicate {A = ℕ} i 0) in
    rw (build_once-lone i f j h, limit_loop, le→leb 1 limit small)
      (ap some (
        map_back-lone i f j (set (zeros n) i 1) h
        ∙ ap (λ (t : ℕ). lone i t j) (first_leaf n i inside)))
