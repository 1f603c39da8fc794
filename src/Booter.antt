-- ===== src/Booter.antt =====
-- booter/booter.c, which loads a kernel from a Fuzix filesystem: the open file, directories and paths.
pub mod File
pub mod Directory
pub mod Paths
pub mod Memory
pub mod Boot
pub mod Launch
pub mod Mount
pub mod Dw
pub mod Tests
