-- ===== src/Allocator.antt =====
-- C-Allocator: the allocator of C-Allocator/src/balloc.c over a memory of 64-bit words, from the
-- arithmetic of size_t up to the four functions of its interface.
pub mod Words
pub mod Memory
pub mod FreeLists
pub mod Layout
pub mod Coalesce
pub mod Grow
pub mod Place
pub mod Api
pub mod Check
pub mod Contract
mod Tests
