-- ===== src/Allocator/Coalesce.antt =====
-- `absorb` and `coalesce` of C-Allocator/src/balloc.c.
pub mod Absorb
pub mod Finish
pub mod Next
pub mod Prev
pub mod Both
pub mod Whole
use foundations_lab.Base.{ℕ, ◌+◌, if◌then◌else◌, ◌==◌, Bool, not, ◌&&◌}
use foundations_lab.Allocator.Words.{add64, sub64, pack}
use foundations_lab.Allocator.Memory.{
  Ptr, Memory, Heap, Stats, put, blk_size, blk_alloc, hdrp, ftrp, next_blkp, prev_blkp, dsize,
}
use foundations_lab.Allocator.FreeLists.{list_remove}

-- The heap with a word written.
unfoldable pub write : Ptr → ℕ → Heap → Heap
write p v h = record h { memory = put p v h.memory }

-- A free block of `size` less, and one more, in the statistics.
unfoldable pub drop_free : ℕ → Stats → Stats
drop_free size s = record s {
  blocks_free = sub64 s.blocks_free 1;
  bytes_free = sub64 s.bytes_free (sub64 size dsize);
}

unfoldable pub count_free : ℕ → Stats → Stats
count_free size s = record s {
  bytes_free = add64 s.bytes_free (sub64 size dsize);
  blocks_free = add64 s.blocks_free 1;
}

unfoldable pub absorb : Ptr → Heap → Heap
absorb nb h =
    let nsize = blk_size h.memory (hdrp nb) in
    let removed = list_remove nb nsize h in
    record removed { g_stats = drop_free nsize removed.g_stats }

-- `PUT(HDRP(bp), PACK(size, alloc)); PUT(FTRP(bp), PACK(size, alloc));`
unfoldable pub put_tags : Ptr → (size alloc : ℕ) → Heap → Heap
unfolding write
put_tags bp size alloc h =
    let headed = write (hdrp bp) (pack size alloc) h in
    write (ftrp headed.memory bp) (pack size alloc) headed

-- The four cases of `coalesce`, named for the neighbours that are free.
unfoldable pub merge_next : Ptr → Heap → Ptr × Heap
unfolding absorb put_tags
merge_next bp h =
    let nb = next_blkp h.memory bp in
    let absorbed = absorb nb h in
    let size = add64 (blk_size h.memory (hdrp bp)) (blk_size absorbed.memory (hdrp nb)) in
    (bp, put_tags bp size 0 absorbed)

unfoldable pub merge_prev : Ptr → Heap → Ptr × Heap
unfolding absorb write
merge_prev bp h =
    let pb = prev_blkp h.memory bp in
    let absorbed = absorb pb h in
    let size = add64 (blk_size h.memory (hdrp bp)) (blk_size absorbed.memory (hdrp pb)) in
    (pb, write (hdrp pb) (pack size 0) (write (ftrp absorbed.memory bp) (pack size 0) absorbed))

unfoldable pub merge_both : Ptr → Heap → Ptr × Heap
unfolding absorb write
merge_both bp h =
    let pb = prev_blkp h.memory bp in
    let nb = next_blkp h.memory bp in
    let absorbed = absorb nb (absorb pb h) in
    let size =
      add64 (blk_size h.memory (hdrp bp))
        (add64 (blk_size absorbed.memory (hdrp pb)) (blk_size absorbed.memory (hdrp nb))) in
    let headed = write (hdrp pb) (pack size 0) absorbed in
    (pb, write (ftrp headed.memory nb) (pack size 0) headed)

unfoldable pub merge_by : (prev_alloc next_alloc : Bool) → Ptr → Heap → Ptr × Heap
unfolding merge_next merge_prev merge_both
merge_by prev_alloc next_alloc bp h =
    if prev_alloc && next_alloc
    then (bp, h)
    else if prev_alloc && not next_alloc
    then merge_next bp h
    else if not prev_alloc && next_alloc
    then merge_prev bp h
    else merge_both bp h

unfoldable pub coalesce : Ptr → Heap → Ptr × Heap
unfolding merge_by
coalesce bp h =
    merge_by (not (blk_alloc h.memory (ftrp h.memory (prev_blkp h.memory bp)) == 0))
      (not (blk_alloc h.memory (hdrp (next_blkp h.memory bp)) == 0)) bp h
