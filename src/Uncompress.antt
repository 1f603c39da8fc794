-- ===== src/Uncompress.antt =====
-- uncompress/uncompress.c, the LZW decoder: its buffered input and output, the bit reader, the
-- dictionary, and the decoding loop.
pub mod Reader
pub mod Writer
pub mod Bits
pub mod Table
pub mod Decode
pub mod Lzw
pub mod Refine
pub mod Tests
