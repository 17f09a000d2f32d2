-- ===== src/Allocator/Place.antt =====
-- `find_fit` and `place` of C-Allocator/src/balloc.c.
pub mod Placed
pub mod Fit
use foundations_lab.Base.{
  ℕ, zero, suc, ◌+◌, if◌then◌else◌, ◌==◌, ltb, leb, Option, none, some, List, [], ◌∷◌, drop, ◌>>=◌,
}
use foundations_lab.Allocator.Words.{add64, sub64}
use foundations_lab.Allocator.Memory.{
  Ptr, null, Memory, Heap, Stats, blk_size, hdrp, next_blkp, next_field, dsize, min_block,
}
use foundations_lab.Allocator.FreeLists.{size_class, list_insert, list_remove}
use foundations_lab.Allocator.Coalesce.{put_tags, drop_free, count_free}

-- The inner loop: the first node from `n` on whose block has `asize` bytes, or NULL; no answer where
-- the list has more nodes than the fuel.
unfoldable pub first_fit : (fuel : ℕ) → Memory → (asize : ℕ) → (n : Ptr) → Option Ptr
first_fit zero m asize n = none
first_fit (suc fuel) m asize n =
    if n == null
    then some null
    else if leb asize (blk_size m (hdrp n))
    then some n
    else first_fit fuel m asize (m (next_field n))

-- The outer loop, over the heads of the classes that are left.
unfoldable pub find_class : (fuel : ℕ) → Memory → (asize : ℕ) → (heads : List Ptr) → Option Ptr
unfolding first_fit
find_class fuel m asize [] = some null
find_class fuel m asize (head ∷ heads) = do
  n ← first_fit fuel m asize head
  if n == null then find_class fuel m asize heads else some n

unfoldable pub find_fit : (fuel asize : ℕ) → Heap → Option Ptr
unfolding find_class
find_fit fuel asize h = find_class fuel h.memory asize (drop (size_class asize) h.g_class)

-- `bytes_in_use` and `blocks_in_use` after a block of `size` is handed out.
unfoldable pub count_used : ℕ → Stats → Stats
count_used size s = record s {
  bytes_in_use = add64 s.bytes_in_use (sub64 size dsize);
  blocks_in_use = add64 s.blocks_in_use 1;
}

-- The free block `bp` off its list.
unfoldable pub take_free : Ptr → Heap → Heap
take_free bp h =
    let csize = blk_size h.memory (hdrp bp) in
    let removed = list_remove bp csize h in
    record removed { g_stats = drop_free csize removed.g_stats }

-- The block of `csize` bytes parted into one of `asize` and a free one of the rest.
unfoldable pub split : Ptr → (csize asize : ℕ) → Heap → Heap
split bp csize asize h =
    let used = put_tags bp asize 1 h in
    let rem = next_blkp used.memory bp in
    let rsize = sub64 csize asize in
    let listed = list_insert rem rsize (put_tags rem rsize 0 used) in
    record listed { g_stats = count_free rsize listed.g_stats }

-- The tags of `place`, for the block of `csize` bytes that is off its list.
unfoldable pub carve : Ptr → (csize asize : ℕ) → Heap → Heap
unfolding split
carve bp csize asize h =
    if leb min_block (sub64 csize asize) then split bp csize asize h else put_tags bp csize 1 h

unfoldable pub place : Ptr → ℕ → Heap → Ptr × Heap
unfolding take_free carve
place bp asize h =
    let csize = blk_size h.memory (hdrp bp) in
    let tagged = carve bp csize asize (take_free bp h) in
    (bp, record tagged { g_stats = count_used (blk_size tagged.memory (hdrp bp)) tagged.g_stats })
