-- ===== src/Deflate/Tree.antt =====
-- `build_once` and `huff_build_lengths` of C-Deflate/src/huffman.c: code lengths from frequencies, by
-- a Huffman tree that is built again with halved frequencies while a code is too long.
pub mod Single
mod Tests
use foundations_lab.Base.{
  ℕ, zero, suc, ◌+◌, ◌-◌, ◌*◌, ◌/◌, Bool, true, false, List, [], ◌∷◌, ◌++◌, map, Option, none, some,
  length, get_or, set, take, ltb, leb, ◌==◌, if◌then◌else◌,
}
use foundations_lab.Deflate.Bits.{u32}
use foundations_lab.Deflate.Huffman.{zeros}

-- `left` and `right`, which are -1 in a leaf.
pub record Node : Type 0 where
  pub freq : ℕ
  pub children : Option (ℕ × ℕ)

abbrev pub no_node : Node
no_node = record { freq = 0; children = none }

-- The loop that makes the leaves; `node_count` is the length of the list. The heap starts as the
-- indices from 0 on.
unfoldable pub leaves : List ℕ → List Node
leaves [] = []
leaves (f ∷ fs) = if f == 0 then leaves fs else record { freq = f; children = none } ∷ leaves fs

unfoldable pub count_up : ℕ → ℕ → List ℕ
count_up zero i = []
count_up (suc left) i = i ∷ count_up left (i + 1)

abbrev pub freq_at : List Node → List ℕ → ℕ → ℕ
freq_at nodes heap i = (get_or nodes (get_or heap i 0) no_node).freq

-- `for (i = 1; i < heap_len; i++) if (freq of i < freq of a) a = i;`
unfoldable pub least : ℕ → ℕ → ℕ → List Node → List ℕ → ℕ
least zero i a nodes heap = a
least (suc left) i a nodes heap =
    least left (i + 1) (if ltb (freq_at nodes heap i) (freq_at nodes heap a) then i else a) nodes
      heap

-- The entry of the least frequency, and the heap after `heap[a] = heap[--heap_len]`.
unfoldable pub extract : List Node → List ℕ → ℕ × List ℕ
unfolding least
extract nodes heap =
    let a = least (length heap - 1) 1 0 nodes heap in
    let last = length heap - 1 in (get_or heap a 0, take last (set heap a (get_or heap last 0)))

-- The loop `while (heap_len > 1)`; a round takes one from `heap_len`, so `heap_len` rounds do.
unfoldable pub merge : ℕ → List Node → List ℕ → List Node × List ℕ
unfolding extract
merge zero nodes heap = (nodes, heap)
merge (suc fuel) nodes heap =
    let (first, heap1) = extract nodes heap in
    let (second, heap2) = extract nodes heap1 in
    let sum = u32 ((get_or nodes first no_node).freq + (get_or nodes second no_node).freq) in
    let joined : Node = record { freq = sum; children = some (first, second) } in
    let rest = merge fuel (nodes ++ (joined ∷ [])) (heap2 ++ (length nodes ∷ [])) in
    if ltb 1 (length heap) then rest else (nodes, heap)

-- The walk: a stack of nodes with their depths, its top first; `none` is to run out of fuel.
unfoldable pub walk : ℕ → List Node → List (ℕ × ℕ) → ℕ → List ℕ → Option (ℕ × List ℕ)
walk fuel nodes [] max_len lengths = some (max_len, lengths)
walk zero nodes (top ∷ stack) max_len lengths = none
walk (suc fuel) nodes ((idx, depth) ∷ stack) max_len lengths =
    elim (get_or nodes idx no_node).children [
      | none ↦
          walk fuel nodes stack (if ltb max_len depth then depth else max_len)
            (set lengths idx (if depth == 0 then 1 else depth))
      | some (left, right) ↦
          walk fuel nodes ((right, depth + 1) ∷ (left, depth + 1) ∷ stack) max_len lengths
    ]

-- `for (i) if (freqs[i]) { lengths[i] = 1; break; }` from the index `i` on.
unfoldable pub mark_first : List ℕ → ℕ → List ℕ → List ℕ
mark_first [] i lengths = lengths
mark_first (f ∷ fs) i lengths = if f == 0 then mark_first fs (i + 1) lengths else set lengths i 1

-- The value returned, and `lengths`. A node is walked once, so `node_count` rounds do.
unfoldable pub build_once : List ℕ → Option (ℕ × List ℕ)
unfolding leaves count_up mark_first
build_once freqs =
    let nodes = leaves freqs in
    let start = length nodes in
    let lengths = zeros (length freqs) in
    let (nodes', heap') = merge start nodes (count_up start 0) in
    if start == 0
    then some (0, lengths)
    else if start == 1
    then some (1, mark_first freqs 0 lengths)
    else elim (walk (length nodes') nodes' ((get_or heap' 0 0, 0) ∷ []) 0 lengths) [
      | none ↦ none
      | some (max_len, lengths') ↦ some (if max_len == 0 then 1 else max_len, lengths')
    ]

-- `lengths[used[i]] = leaf_len[i]` for the used symbols in order, and 0 for the others: entry by
-- entry, with `i` the number of used symbols passed.
unfoldable pub map_back : List ℕ → ℕ → List ℕ → List ℕ
map_back [] i leaf_len = []
map_back (f ∷ fs) i leaf_len =
    if f == 0
    then 0 ∷ map_back fs i leaf_len
    else get_or leaf_len i 0 ∷ map_back fs (i + 1) leaf_len

abbrev pub halve : ℕ → ℕ
halve f = if f == 0 then 0 else u32 (f + 1) / 2

-- `for (;;)`: the round that keeps the limit ends it.
unfoldable pub limit_loop : ℕ → List ℕ → ℕ → Option (List ℕ)
unfolding build_once map_back
limit_loop zero scaled limit = none
limit_loop (suc fuel) scaled limit =
    let again = limit_loop fuel (map halve scaled) limit in
    elim (build_once scaled) [
      | none ↦ none
      | some (max_len, leaf_len) ↦
          if leb max_len limit then some (map_back scaled 0 leaf_len) else again
    ]

-- A `uint32_t` halved 32 times is at most 1.
unfoldable pub huff_build_lengths : List ℕ → ℕ → Option (List ℕ)
unfolding limit_loop
huff_build_lengths freqs limit = limit_loop 33 freqs limit
