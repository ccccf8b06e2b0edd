-- ===== src/Fatblock.antt =====
-- fatblock: a FAT32 image of a directory tree, served block by block.
pub mod Extents
pub mod Text
pub mod Volume
pub mod Read
pub mod Names
pub mod Pool
mod Tests
