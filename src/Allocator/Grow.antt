-- ===== src/Allocator/Grow.antt =====
-- `grow` of C-Allocator/src/balloc.c. What `mmap` answers for a number of bytes is a parameter, with
-- no address for MAP_FAILED; the words of a fresh region are whatever the memory has there.
pub mod Chunk
pub mod Grown
pub mod Whole
pub mod Total
use foundations_lab.Base.{ℕ, ◌+◌, ◌-◌, if◌then◌else◌, ltb, Option, none, some, bit_and}
use foundations_lab.Allocator.Words.{add64, sub64, align_up, not64, pack}
use foundations_lab.Allocator.Memory.{
  Ptr, null, Heap, Stats, hdrp, next_field, size_field, sizeof_chunk, wsize, dsize, default_chunk,
}
use foundations_lab.Allocator.FreeLists.{list_insert}
use foundations_lab.Allocator.Coalesce.{write, count_free}

-- The bytes asked of the system for `need`.
unfoldable pub chunk_total : ℕ → ℕ
chunk_total need =
    align_up (add64 (add64 (add64 need sizeof_chunk) 24) dsize)
      (if ltb need default_chunk then default_chunk else align_up need 4096)

-- `first_payload` of a chunk.
unfoldable pub first_payload : Ptr → Ptr
first_payload region = align_up (region + sizeof_chunk + wsize + wsize) dsize

-- `ch->size = total; ch->next = g_chunks; g_chunks = ch;`, and the statistics.
unfoldable pub add_chunk : (region total : ℕ) → Heap → Heap
unfolding write
add_chunk region total h =
    let sized = write (size_field region) total h in
    let linked = write (next_field region) h.g_chunks sized in
    record linked {
      g_chunks = region;
      g_stats = record h.g_stats {
        chunk_count = add64 h.g_stats.chunk_count 1;
        heap_bytes = add64 h.g_stats.heap_bytes total;
      };
    }

-- The bytes from the header of the free block to the epilogue.
unfoldable pub chunk_block : (region total : ℕ) → ℕ
chunk_block region total =
    bit_and (sub64 (region + total - wsize) (hdrp (first_payload region))) (not64 7)

-- The prologue, the free block and the epilogue.
unfoldable pub lay_out : (region total : ℕ) → Heap → Heap
unfolding write
lay_out region total h =
    let fh = hdrp (first_payload region) in
    let bsize = chunk_block region total in
    let prologue = write (first_payload region - wsize - wsize) (pack wsize 1) h in
    let headed = write fh (pack bsize 0) prologue in
    let footed = write (fh + bsize - wsize) (pack bsize 0) headed in
    write (region + total - wsize) (pack 0 1) footed

-- The chunk at a region that `mmap` gave, with its free block on its list.
unfoldable pub open_chunk : (region total : ℕ) → Heap → Ptr × Heap
unfolding add_chunk lay_out
open_chunk region total h =
    let bsize = chunk_block region total in
    let bp = hdrp (first_payload region) + wsize in
    let listed = list_insert bp bsize (lay_out region total (add_chunk region total h)) in
    (bp, record listed { g_stats = count_free bsize listed.g_stats })

unfoldable pub grow : (ℕ → Option Ptr) → ℕ → Heap → Ptr × Heap
unfolding open_chunk
grow mmap need h =
    let total = chunk_total need in
    elim (mmap total) [ none ↦ (null, h) | some region ↦ open_chunk region total h ]
