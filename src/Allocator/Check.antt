-- ===== src/Allocator/Check.antt =====
-- `on_free_list` and `balloc_check` of C-Allocator/src/balloc.c. A return value of -k is `fails k`.
pub mod Listed
pub mod Blocks
pub mod Whole
use foundations_lab.Base.{
  ℕ, zero, suc, ◌+◌, ◌%◌, if◌then◌else◌, ◌==◌, ltb, not, ◌&&◌, ◌||◌, Option, none, some, ◌>>=◌,
  List, [], ◌∷◌, Bool, true, false,
}
use foundations_lab.Allocator.Memory.{
  Ptr, null, Memory, Heap, blk_size, blk_alloc, hdrp, ftrp, next_blkp, dsize, min_block, next_field,
}
use foundations_lab.Allocator.Grow.{first_payload}

-- The inner loop of `on_free_list`.
unfoldable pub on_list : (fuel : ℕ) → Memory → (bp n : Ptr) → Option Bool
on_list zero m bp n = none
on_list (suc fuel) m bp n =
    if n == null
    then some false
    else if n == bp
    then some true
    else on_list fuel m bp (m (next_field n))

unfoldable pub on_free_list : (fuel : ℕ) → Memory → (bp : Ptr) → (heads : List Ptr) → Option Bool
unfolding on_list
on_free_list fuel m bp [] = some false
on_free_list fuel m bp (head ∷ heads) = do
  found ← on_list fuel m bp head
  if found then some true else on_free_list fuel m bp heads

-- What `balloc_check` returns: 0, or a negative number.
pub data Verdict : Type 0 where
  sound : Verdict
  fails : ℕ → Verdict

-- The checks of one block, with the block before it.
unfoldable pub check_block : (fuel : ℕ) → Heap → (bp prev : Ptr) → Option Verdict
unfolding on_free_list
check_block fuel h bp prev =
    let m = h.memory in
    if not (bp % dsize == 0)
    then some (fails 1)
    else if not (m (hdrp bp) == m (ftrp m bp))
    then some (fails 2)
    else if ltb (blk_size m (hdrp bp)) min_block
    then some (fails 3)
    else if not (blk_alloc m (hdrp bp) == 0)
    then some sound
    else do
      found ← on_free_list fuel m bp h.g_class
      some (
          if not found
          then fails 4
          else if not (prev == null) && (blk_alloc m (hdrp prev) == 0)
          then fails 5
          else sound)

-- The loop over the blocks of a chunk.
unfoldable pub check_blocks : (fuel spare : ℕ) → Heap → (bp prev : Ptr) → Option Verdict
unfolding check_block
check_blocks fuel zero h bp prev = none
check_blocks fuel (suc spare) h bp prev =
    if blk_size h.memory (hdrp bp) == 0 then some sound else do
      verdict ← check_block fuel h bp prev
      elim verdict [
        | sound ↦ check_blocks fuel spare h (next_blkp h.memory bp) bp
        | fails k ↦ some (fails k)
      ]

-- The loop over the chunks.
unfoldable pub check_chunks : (fuel spare : ℕ) → Heap → Ptr → Option Verdict
unfolding check_blocks
check_chunks fuel zero h ch = none
check_chunks fuel (suc spare) h ch = if ch == null then some sound else do
  verdict ← check_blocks fuel fuel h (first_payload ch) null
  elim verdict [
    | sound ↦ check_chunks fuel spare h (h.memory (next_field ch))
    | fails k ↦ some (fails k)
  ]

-- The loops over the listed nodes.
unfoldable pub check_nodes : (fuel : ℕ) → Memory → Ptr → Option Verdict
check_nodes zero m n = none
check_nodes (suc fuel) m n =
    if n == null
    then some sound
    else if not (blk_alloc m (hdrp n) == 0)
    then some (fails 6)
    else check_nodes fuel m (m (next_field n))

unfoldable pub check_lists : (fuel : ℕ) → Memory → List Ptr → Option Verdict
unfolding check_nodes
check_lists fuel m [] = some sound
check_lists fuel m (head ∷ heads) = do
  verdict ← check_nodes fuel m head
  elim verdict [ sound ↦ check_lists fuel m heads | fails k ↦ some (fails k) ]

unfoldable pub balloc_check : (fuel : ℕ) → Heap → Option Verdict
unfolding check_chunks check_lists
balloc_check fuel h = do
  verdict ← check_chunks fuel fuel h h.g_chunks
  elim verdict [ sound ↦ check_lists fuel h.memory h.g_class | fails k ↦ some (fails k) ]
