-- ===== src/Decb.antt =====
-- decb/decb.c: Disk Extended Color BASIC disk images. The image file, the granule table, the
-- directory, the files' data, and the commands.
pub mod Image
pub mod Fat
pub mod Chain
pub mod Store
pub mod Directory
pub mod Commands
pub mod Tests
