-- ===== src/Ext4.antt =====
-- ext4_utils: the block and inode allocator of make_ext4fs, its region lists, the extents and indirect
-- blocks of its files, its directories, the default parameters and the geometry.
pub mod Bitmap
pub mod Exit
pub mod BlockGroup
pub mod Groups
pub mod Inodes
pub mod Store
pub mod Regions
pub mod Allocation
pub mod Extents
pub mod Indirect
pub mod Contents
pub mod Defaults
pub mod Geometry
pub mod Crc16
pub mod Super
pub mod Xattr
pub mod Slashes
pub mod Tests
