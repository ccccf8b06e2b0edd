-- ===== src/Lib.antt =====
-- Verification of two file system tools of this repository: the allocator and the geometry of
-- make_ext4fs (ext4_utils/), with the extents and indirect blocks of its files, and fatblock
-- (fatblock/), which serves a FAT32 image of a directory tree without ever writing it out.
--
-- make_ext4fs lays an ext4 image out in block groups. `ext4_create_fs_aux_info` computes the
-- geometry from the parameters, `block_allocator_init` starts every group with `init_bg`, and then
-- contents.c, extent.c and indirect.c ask for inodes and blocks until the image is complete.
--   Ext4/Exit.antt        the end of a call: `error` and `critical_error` of ext4_utils/ext4_utils.h
--   Ext4/Bitmap.antt      bitmap_set_bit, bitmap_set_8_bits, and the bit that free_blocks clears
--                         (ext4_utils/allocate.c); Bitmap/Laws: what they do to each bit
--   Ext4/BlockGroup.antt  struct block_group_info, reserve_blocks, free_blocks (allocate.c);
--                         BlockGroup/Fill: its loops; /Reserve: every branch and the invariant
--                         IsGroup of a group; /Release: free_blocks
--   Ext4/Groups.antt      ext4_allocate_blocks_from_block_group, the loop over aux_info.bgs, and
--                         allocate_block (allocate.c); Groups/Queue and Groups/Calls: calls of
--                         allocate_block in a row; Groups/FirstFit and Groups/Blocks: both
--                         refine a first fit over the groups
--   Ext4/Inodes.antt      reserve_inodes, allocate_inode, add_directory and the inode arithmetic of
--                         get_inode (allocate.c); Inodes/Laws and Inodes/Fresh: each number is
--                         given once
--   Ext4/Geometry.antt    struct fs_info, struct fs_aux_info, is_power_of, ext4_bg_has_super_block,
--                         ext4_create_fs_aux_info (ext4_utils/ext4_utils.c), init_bg (allocate.c);
--                         Geometry/Powers: the groups with a superblock; Geometry/Groups: a group
--                         that init_bg starts meets the invariants
--   Ext4/Super.antt       struct ext4_super_block, struct ext2_group_desc, log_2, ext4_fill_in_sb,
--                         ext4_queue_sb, ext4_parse_sb, ext4_update_free (ext4_utils/ext4_utils.c);
--                         Super/Log: log_2; Super/Sizes and Super/RoundTrip: what is read back;
--                         Super/Descs: where the descriptors point to; Super/Totals: the counts
--   Ext4/Crc16.antt       ext4_crc16 (ext4_utils/crc16.c); Crc16/Bitwise: the division bit by bit
--   Ext4/Defaults.antt    the compute_* functions (ext4_utils/make_ext4fs.c); Defaults/Bounds: the
--                         inodes of a group
--   Ext4/Store.antt       the memory that region lists live in, the groups, and the image
--   Ext4/Regions.antt     struct region, region_list and block_allocation, and their operations
--                         (allocate.c) up to rewind_alloc; Regions/Chain: the walks along a list;
--                         Regions/Advance: advance_blocks, advance_oob_blocks;
--                         Regions/Linked and Regions/Append: the list is linked both ways;
--                         Regions/Split: reduce_allocation, do_split_allocation,
--                         split_allocation, reserve_oob_blocks, free_alloc
--   Ext4/Allocation.antt  allocate_blocks and what it calls: ext4_allocate_contiguous_blocks,
--                         ext4_allocate_partial, ext4_allocate_multiple_contiguous_blocks,
--                         do_allocate, append_oob_allocation (allocate.c);
--                         Allocation/OneGroup: where a group has room
--   Ext4/Extents.antt     the blocks of a file as extents (ext4_utils/extent.c); Extents/Lookup: what
--                         the extents in an inode map; Extents/Run: a whole run in one group
--   Ext4/Indirect.antt    the blocks of a file as a tree of indirect blocks (ext4_utils/indirect.c):
--                         Indirect/Reserve: the count of the blocks of the tree, and their
--                         reservation; /Fill: the words of the tree; /Attach: the inode;
--                         /Resize: the resize inode; /Needed: the count against the sizes of the
--                         trees; /Direct: direct blocks and one indirect block
--   Ext4/Contents.antt    the records of a directory: dentry_size, add_dentry and the part of
--                         make_directory that writes them (ext4_utils/contents.c);
--                         Contents/Blocks: which block a record is in; /Tiled and /Added: one more
--                         record; /Directory and /Whole: all of them
--   Ext4/Xattr.antt       extended attributes (ext4_utils/xattr.h and contents.c) up to
--                         xattr_addto_range; Xattr/Region: a region as a list of attributes;
--                         /Walk: the loops over the entries; /Written: the bytes of a new entry;
--                         /Sorted: xattr_assert_sane; /Added: one more attribute; /Unmarked: a
--                         region filled to the last byte; /Inode: up to xattr_add, with the block
--                         of get_xattr_block_for_inode (allocate.c); /Setters: get_inode
--                         (allocate.c), inode_set_selinux, inode_set_capabilities and
--                         inode_set_permissions; /Started and /Fallback: the inode or a block
--   Ext4/Slashes.antt     canonicalize_slashes (ext4_utils/make_ext4fs.c); Slashes/Closed: what it
--                         guarantees
-- fatblock computes the layout of the image first: `fs_init` the boot and info sectors,
-- `fs_alloc_extent` the clusters of each file and directory. Every read of the image is then
-- `fs_read`, which asks `fs_find_extent` for the next range with something behind it.
--   Fatblock/Extents.antt struct extent, fs_add_extent and fs_find_extent (fatblock/fs.c)
--   Fatblock/Text.antt    strpadcpy (fatblock/utils.c)
--   Fatblock/Volume.antt  struct fs, fs_init, fs_set_fat, fs_alloc_extent, fs_set_rootdir_start,
--                         fs_update_free_clusters (fatblock/fs.c); Volume/Chain: the FAT chain;
--                         Volume/Layout: the invariant IsFs; Volume/Init: fs_init starts it
--   Fatblock/Read.antt    buffer_read, file_read, dir_read, extent_read, fs_read (fatblock/read.c);
--                         Read/Buffer, Read/Image and Read/Whole: what they deliver
--   Fatblock/Pool.antt    the pool of open files (fatblock/fdpool.c); Pool/Ring, Pool/Links and
--                         Pool/Nodes: its ring of nodes as a list; Pool/Recent and Pool/Open: it
--                         keeps the files used last; Pool/Close: fdpool_close
--   Fatblock/Names.antt   valid_char and convert_name (fatblock/import.c), struct fat_dirent,
--                         fat_dirent_set (fatblock/fat.c); Names/Short: the bytes of a short name
--
-- Numbers are native naturals. A `u32` or `offset_t` operation is written with its wrap-around
-- (add32, sub64, ...), and the theorems state the bounds under which nothing wraps. A bitmap is the
-- list of its bytes, a C array a list, a buffer that is written to a function of the place in it;
-- the extents are written against the size of their array, and a write behind it faults. `error`
-- ends the call, or goes on if the global `force` is set, which the definitions take as an
-- argument. Most loops are recursions on their count or on the list. The others have fuel: the loop
-- that allocates over several groups has one step more than the blocks asked for; a walk along a
-- region list has one step more than the regions ever allocated, and the theorems on these walks
-- say that this is enough; the loops that fill double and triple indirect blocks take at least one
-- block in each round and have one step more than the blocks; the walks over the attributes of a
-- region have one step more than the address of its end, and an entry takes 16 bytes; fs_read has
-- one step more than there are extents; the loops of reserve_blocks, is_power_of, log_2 and
-- strpadcpy count down a number that their theorems show to be enough.
--
-- The system below the tools is a parameter: what `stat`, `open`, `lseek` and `read` give for a
-- file is an argument of the definitions of Fatblock/Read.antt and Fatblock/Pool.antt, and so is
-- the file's content. `malloc` is taken to succeed. Whether a sparse file (libsparse) takes a
-- buffer is a parameter where the code asks; otherwise sparse files, printing and the FUSE loop are
-- left out, and so are the messages of `error`. What make_ext4fs writes is kept as the words of the
-- blocks of an image, in place of the buffers that are queued in a sparse file: two buffers for the
-- same block are taken as one, and the words are those of a little-endian machine. A resize inode
-- is attached only where bg_desc_reserve_blocks is not 0. `char` is unsigned, as on ARM, and
-- without a dot `dot - long_name` is negative.
--
-- Not modelled of the two tools: the inodes of directories and files (the rest of
-- ext4_utils/contents.c), the walk and the calls of make_ext4fs.c, the resize and journal inodes,
-- ext4fixup; the scan of the host directory in fatblock/import.c, and the server. Of the
-- repository: the memory statistics tools, the other small tools, tests/ and wrapper/, which are
-- mostly calls of the system, printing and proxies.
pub mod Prelude
pub mod Ext4
pub mod Fatblock
