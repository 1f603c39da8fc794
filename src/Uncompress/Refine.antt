-- ===== src/Uncompress/Refine.antt =====
-- That uncompress/uncompress.c decodes as Lzw does: the dictionary, one turn of the loop, and the
-- whole of `decompress`.
pub mod Width
pub mod Dictionary
pub mod Link
pub mod Turn
pub mod Extend
pub mod Loop
pub mod Whole
