-- ===== src/Bfc.antt =====
-- bfc/bfc.c, which compiles Forth-like source to assembler source.
pub mod Output
pub mod Input
pub mod Number
pub mod State
pub mod Dictionary
pub mod Control
pub mod Strings
pub mod Process
pub mod Structures
pub mod Invariant
pub mod Tests
