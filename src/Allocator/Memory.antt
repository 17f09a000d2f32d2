-- ===== src/Allocator/Memory.antt =====
-- The memory of C-Allocator/src/balloc.c and its file-scope variables: 64-bit words at byte addresses
-- that are multiples of 8, the macros that go from a payload to its boundary tags and neighbours, the
-- heads of the free lists, the list of chunks and the statistics.
use foundations_lab.Base.{
  ℕ, ◌+◌, ◌-◌, ◌%◌, ◌<◌, ◌≡◌, ◌≢◌, List, if◌then◌else◌, arith, ◌==◌, replicate,
}
use foundations_lab.Allocator.Words.{word_end, size_bits, alloc_bit}

-- An address; NULL is 0.
abbrev pub Ptr : Type 0
Ptr = ℕ

abbrev pub null : Ptr
null = 0

abbrev pub Memory : Type 0
Memory = Ptr → ℕ

-- `PUT(p, v)`
unfoldable pub put : Ptr → ℕ → Memory → Memory
put p v m a = if a == p then v % word_end else m a

-- `BLK_SIZE(p)` and `BLK_ALLOC(p)`
unfoldable pub blk_size : Memory → Ptr → ℕ
blk_size m p = size_bits (m p)

unfoldable pub blk_alloc : Memory → Ptr → ℕ
blk_alloc m p = alloc_bit (m p)

abbrev pub wsize : ℕ
wsize = 8

abbrev pub dsize : ℕ
dsize = 16

abbrev pub min_block : ℕ
min_block = 32

abbrev pub default_chunk : ℕ
default_chunk = 1048576

abbrev pub class_count : ℕ
class_count = 16

abbrev pub hdrp : Ptr → Ptr
hdrp bp = bp - wsize

unfoldable pub ftrp : Memory → Ptr → Ptr
ftrp m bp = bp + blk_size m (hdrp bp) - dsize

unfoldable pub next_blkp : Memory → Ptr → Ptr
next_blkp m bp = bp + blk_size m (hdrp bp)

unfoldable pub prev_blkp : Memory → Ptr → Ptr
prev_blkp m bp = bp - blk_size m (bp - dsize)

-- The fields of `fnode` at `n` and of `chunk` at `c`.
abbrev pub next_field : Ptr → Ptr
next_field n = n

abbrev pub prev_field : Ptr → Ptr
prev_field n = n + 8

abbrev pub size_field : Ptr → Ptr
size_field c = c + 8

abbrev pub sizeof_chunk : ℕ
sizeof_chunk = 16

pub record Stats : Type 0 where
  pub bytes_in_use : ℕ
  pub bytes_free : ℕ
  pub heap_bytes : ℕ
  pub blocks_in_use : ℕ
  pub blocks_free : ℕ
  pub chunk_count : ℕ

pub record Heap : Type 0 where
  pub memory : Memory
  pub g_class : List Ptr
  pub g_chunks : Ptr
  pub g_stats : Stats

abbrev pub no_stats : Stats
no_stats = record {
  bytes_in_use = 0;
  bytes_free = 0;
  heap_bytes = 0;
  blocks_in_use = 0;
  blocks_free = 0;
  chunk_count = 0;
}

-- The variables as the program starts.
unfoldable pub start_heap : Memory → Heap
start_heap m = record {
  memory = m;
  g_class = replicate class_count null;
  g_chunks = null;
  g_stats = no_stats;
}

-- The reads after a write.
pub put_self : (m : Memory) (p v : ℕ) → v < word_end → put p v m p ≡ v
unfolding put
put_self m p v h = ground arith

pub put_other : (m : Memory) (p v a : ℕ) → a ≢ p → put p v m a ≡ m a
unfolding put
put_other m p v a h = ground arith
