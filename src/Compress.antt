-- ===== src/Compress.antt =====
-- uncompress/compress.c, the encoder of the streams that uncompress/uncompress.c reads: the bits that
-- it puts out, its dictionary, and its loop. The buffers are those of Uncompress, whose code is the
-- same.
pub mod Bits
pub mod Dictionary
pub mod Encode
pub mod Codes
pub mod Whole
pub mod Tests
