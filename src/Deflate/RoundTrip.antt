-- ===== src/Deflate/RoundTrip.antt =====
-- The encoder of C-Deflate/src/deflate.c and the decoder of C-Deflate/src/inflate.c together.
pub mod Blocks
pub mod Finish
pub mod Stored
pub mod Tokens
pub mod Fixed
pub mod Whole
mod Tests
