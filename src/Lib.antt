-- ===== src/Lib.antt =====
-- Two C libraries of Foundations-Lab: C-Deflate, a DEFLATE encoder and decoder (RFC 1951) with the gzip
-- container, and C-Allocator, a `malloc` of its own over `mmap`. They do not call each other.
--
-- How C-Deflate works. `deflate_compress` (C-Deflate/src/deflate.c) parses the input into literals
-- and matches by hash chains (`lz77_parse`, `find_match`), estimates the size of the output in the
-- fixed code, in a code made for the block (`huff_build_lengths` of C-Deflate/src/huffman.c) and
-- stored, and writes the smallest through the bit writer (`bw_bits`, `bw_code` of
-- C-Deflate/src/bits.c). `deflate_decompress` (C-Deflate/src/inflate.c) reads blocks through the bit
-- reader (`br_bits`), builds decoders from code lengths (`huff_build_decoder`), and copies matches out
-- of its own output. `gzip_compress` frames the stream with a CRC-32.
--
-- How C-Allocator works (C-Allocator/src/balloc.c). A chunk is a region from `mmap` that is divided into
-- blocks with their size and whether they are in use at both ends (boundary tags), between a prologue
-- and an epilogue. The free blocks are on sixteen doubly linked lists by size, with the links in their
-- payloads. `balloc` searches the lists (`find_fit`), asks for another chunk if it must (`grow`) and
-- splits what is left over off (`place`); `bfree` merges the block with its free neighbours
-- (`coalesce`); `bcalloc` and `brealloc` build on the two, and `balloc_check` walks over all of it.
--
-- What models what.
-- - Base: Boolean tests, arrays as lists, bit operations as arithmetic, powers of two, the elements of
--   a list.
-- - Deflate/Stream: lists of bits, the abstract view of both streams; it models no code.
-- - Deflate/Bits: bits.c. `BitWriter` and `BitReader` are the structs; `pos` of the writer is the length
--   of the bytes written. Writer, Code, Reader and Fields say what each operation does to the stream of
--   bits, Appends and Progress how calls compose, RoundTrip joins both sides.
-- - Deflate/Tables: the tables of bits.c, the constants of internal.h, the searches over them.
-- - Deflate/Status: the error codes of deflate.h, and results.
-- - Deflate/Huffman: huffman.c from `huff_assign_codes` on. Deflate/Tree: `build_once` and
--   `huff_build_lengths`.
-- - Deflate/Window, Deflate/Lz77: the tokens, the parse of deflate.c, and the decoder's copying loop.
-- - Deflate/Fixed, Deflate/Emit, Deflate/Pack, Deflate/Compress: the rest of deflate.c.
-- - Deflate/Header, Deflate/Inflate: the decoder of inflate.c. Deflate/Gzip: its CRC and container;
--   Register is the shift register of the CRC and models no code.
-- - Deflate/RoundTrip: the encoder and the decoder together.
-- - Allocator/Words, Allocator/Memory: the arithmetic of `size_t`, the macros over words in memory, the
--   file-scope variables (`Heap`). Memory is a function from addresses to 64-bit words; the code reads
--   and writes at multiples of 8 only.
-- - Allocator/FreeLists: `size_class`, `list_insert`, `list_remove`; Chain and Filed say what the lists
--   in memory hold.
-- - Allocator/Coalesce, Allocator/Grow, Allocator/Place, Allocator/Api, Allocator/Check: the functions
--   of the file in its order. `brealloc`'s `memcpy` and `bcalloc`'s `memset` act on words.
-- - Allocator/Layout: the abstract view. A `Piece` is a block, a prologue or an epilogue; `Layout` says
--   how pieces tile the chunks, `State` what memory, lists and pieces have to do with each other, Recut
--   what a change of the tags within one stretch of memory does, Keeps what callers see of it.
-- - Allocator/Contract: sound heaps, the blocks in use, and the four functions over them.
--
-- Numbers. A `uint32_t` wraps at 2 ^ 32 and a `uint16_t` at 2 ^ 16 where the code can reach that; a
-- `size_t` is taken as wide enough for the sizes in memory, except in `find_match`, where a
-- difference of positions may wrap at 2 ^ 64. The allocator's arithmetic on sizes is all written
-- with its wrap-around (`add64`, `sub64`, `mul64`); its addresses are natural numbers that do not
-- wrap, and one below NULL, which the code does not form on a sound heap, would be 0. An `int32_t`
-- that is negative, as the empty hash chain, is `none`.
--
-- Loops. A loop with a count is recursion on the rounds left. `while` loops run on a number of rounds
-- that is enough by their own progress: `bit_count` rounds for the flush, the input's length for the
-- parse, the announced total for the code lengths. The decoder's loops over symbols and blocks run on
-- eight rounds for each byte of input and nine more, since each round but the last reads a bit; they
-- return `none` if the rounds run out. The walk over the Huffman tree has a round for each node, and the loop that
-- halves frequencies 33, since a `uint32_t` halved 32 times is at most 1; that these are enough is not
-- proved, and `none` stands for running out of them. The allocator's loops over linked lists run on fuel
-- that is an argument, and give `none` without enough; the loop over the blocks of a chunk takes a turn
-- for each block, and each is at a higher address, so that 2 ^ 64 turns are enough.
--
-- Memory. Whether `malloc` succeeds, and what uninitialised memory holds, are parameters: `Heap` for
-- the encoder, `Scratch` for the decoders on the stack of the decoder. What `mmap` answers is an argument of
-- each call, and what it promises of a region a named hypothesis (`IsMapping`): pages, apart from what
-- is mapped. The words of a fresh region are whatever the memory function has there.
--
-- Not modelled: what stands in the output buffer after an error; the tools, tests and benchmarks;
-- the effect of `munmap`; C-Coroutines, whose context switch is assembly; the repository's other projects.
mod Base
pub mod Deflate
pub mod Allocator
