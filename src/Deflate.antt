-- ===== src/Deflate.antt =====
-- C-Deflate: the DEFLATE encoder and decoder (RFC 1951), in the order in which the parts build on
-- each other.
pub mod Stream
pub mod Bits
pub mod Tables
pub mod Status
pub mod Huffman
pub mod Window
pub mod Lz77
pub mod Fixed
pub mod Header
pub mod Inflate
pub mod Emit
pub mod Pack
pub mod Tree
pub mod Compress
pub mod Gzip
pub mod RoundTrip
