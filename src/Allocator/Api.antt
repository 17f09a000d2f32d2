-- ===== src/Allocator/Api.antt =====
-- The functions of C-Allocator/include/balloc.h: `balloc`, `bfree`, `bcalloc`, `brealloc`,
-- `balloc_stats_get` and `balloc_reset`. Each takes what `mmap` answers and, for its loops over linked
-- lists, fuel; it gives the pointer it returns and the heap it leaves.
pub mod Free
pub mod Alloc
pub mod Calloc
pub mod Realloc
pub mod Adjusted
use foundations_lab.Base.{
  ℕ, zero, suc, ◌+◌, ◌-◌, ◌*◌, ◌/◌, ◌^◌, if◌then◌else◌, ◌==◌, ltb, leb, not, ◌&&◌, ◌||◌, Option,
  none, some, List, [], ◌∷◌, ◌++◌, replicate, ◌>>=◌,
}
use foundations_lab.Allocator.Words.{add64, sub64, mul64, align_up, pack, word_end}
use foundations_lab.Allocator.Memory.{
  Ptr, null, Memory, Heap, Stats, blk_size, hdrp, dsize, min_block, no_stats, class_count,
  next_field, size_field,
}
use foundations_lab.Allocator.FreeLists.{list_insert}
use foundations_lab.Allocator.Coalesce.{coalesce, put_tags, count_free}
use foundations_lab.Allocator.Grow.{grow}
use foundations_lab.Allocator.Place.{find_fit, place}

-- The bytes of the block for a request of `size`.
unfoldable pub adjusted : ℕ → ℕ
adjusted size =
    let asize = align_up (add64 size dsize) dsize in
    if ltb asize min_block then min_block else asize

-- A block of `asize` bytes out of a new chunk.
unfoldable pub place_fresh : (ℕ → Option Ptr) → (asize : ℕ) → Heap → Ptr × Heap
place_fresh mmap asize h =
    let (fresh, grown) = grow mmap asize h in
    if fresh == null then (null, grown) else place fresh asize grown

unfoldable pub balloc_block : (ℕ → Option Ptr) → (fuel asize : ℕ) → Heap → Option (Ptr × Heap)
unfolding place_fresh
balloc_block mmap fuel asize h = do
  bp ← find_fit fuel asize h
  some (if bp == null then place_fresh mmap asize h else place bp asize h)

unfoldable pub balloc : (ℕ → Option Ptr) → (fuel size : ℕ) → Heap → Option (Ptr × Heap)
unfolding balloc_block adjusted
balloc mmap fuel size h =
    if size == 0 then some (null, h) else balloc_block mmap fuel (adjusted size) h

-- `bytes_in_use` and `blocks_in_use` after a block of `size` is given back.
unfoldable pub drop_used : ℕ → Stats → Stats
drop_used size s = record s {
  bytes_in_use = sub64 s.bytes_in_use (sub64 size dsize);
  blocks_in_use = sub64 s.blocks_in_use 1;
}

-- The block `ptr` marked free, in its tags and in the statistics.
unfoldable pub mark_free : Ptr → Heap → Heap
mark_free ptr h =
    let size = blk_size h.memory (hdrp ptr) in
    put_tags ptr size 0 (record h { g_stats = drop_used size h.g_stats })

-- A free block put on its list and counted.
unfoldable pub list_free : Ptr → Heap → Heap
list_free bp h =
    let size = blk_size h.memory (hdrp bp) in
    let listed = list_insert bp size h in
    record listed { g_stats = count_free (blk_size listed.memory (hdrp bp)) listed.g_stats }

unfoldable pub bfree : Ptr → Heap → Heap
unfolding mark_free list_free
bfree ptr h =
    if ptr == null
    then h
    else (let (bp, merged) = coalesce ptr (mark_free ptr h) in list_free bp merged)

-- `memset(p, 0, total)` on words: the last word of a length that is no multiple of 8 keeps its high
-- bytes.
unfoldable pub zero_bytes : (p total : ℕ) → Memory → Memory
zero_bytes p total m a =
    if leb p a && ltb a (p + total)
    then (if leb (a + 8) (p + total)
        then 0
        else m a / 2 ^ (8 * (p + total - a)) * 2 ^ (8 * (p + total - a)))
    else m a

unfoldable pub bcalloc : (ℕ → Option Ptr) → (fuel nmemb size : ℕ) → Heap → Option (Ptr × Heap)
unfolding zero_bytes
bcalloc mmap fuel nmemb size h =
    if not (nmemb == 0) && ltb ((word_end - 1) / nmemb) size then some (null, h) else do
      (p, h') ← balloc mmap fuel (mul64 nmemb size) h
      some (
        p,
        if p == null then h' else record h' { memory = zero_bytes p (mul64 nmemb size) h'.memory },
      )

-- `memcpy(np, ptr, n)` on words, for `n` a multiple of 8.
unfoldable pub copy_words : (np ptr n : ℕ) → Memory → Memory
copy_words np ptr n m a = if leb np a && ltb a (np + n) then m (ptr + (a - np)) else m a

unfoldable pub brealloc : (ℕ → Option Ptr) → (fuel : ℕ) → Ptr → ℕ → Heap → Option (Ptr × Heap)
unfolding copy_words
brealloc mmap fuel ptr size h =
    if ptr == null
    then balloc mmap fuel size h
    else if size == 0
    then some (null, bfree ptr h)
    else (let old_payload = sub64 (blk_size h.memory (hdrp ptr)) dsize in
        if leb size old_payload then some (ptr, h) else do
          (np, h') ← balloc mmap fuel size h
          if np == null
              then some (null, h')
              else some
                  (np, bfree ptr (record h' { memory = copy_words np ptr old_payload h'.memory })))

unfoldable pub balloc_stats_get : Heap → Stats
balloc_stats_get h = h.g_stats

-- The regions that `balloc_reset` gives to `munmap`, in order, with their sizes.
unfoldable pub unmapped : (fuel : ℕ) → Memory → Ptr → Option (List (Ptr × ℕ))
unmapped zero m c = none
unmapped (suc fuel) m c =
    if c == null
    then some []
    else do rest ← unmapped fuel m (m (next_field c)); some ((c, m (size_field c)) ∷ rest)

unfoldable pub balloc_reset : (fuel : ℕ) → Heap → Option (List (Ptr × ℕ) × Heap)
unfolding unmapped
balloc_reset fuel h = do
  regions ← unmapped fuel h.memory h.g_chunks
  some (
    regions,
    record h { g_chunks = null; g_class = replicate class_count null; g_stats = no_stats },
  )
