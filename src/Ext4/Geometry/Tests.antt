-- ===== src/Ext4/Geometry/Tests.antt =====
-- Runs of the geometry functions (ext4_utils/ext4_utils.c, ext4_utils/allocate.c) on a device of 30
-- blocks in groups of 16, and the theorems at these inputs.
use android_platform_system.Prelude.{[], ◌≡◌, ◌↔◌, true, false, arith}
use android_platform_system.Ext4.Exit.{returns}
use android_platform_system.Ext4.BlockGroup.{BlockGroupInfo}
use android_platform_system.Ext4.Geometry.{FsInfo, FsAuxInfo, ext4_bg_has_super_block, init_bg}
use android_platform_system.Ext4.Geometry.Powers.{HasSuper, ext4_bg_has_super_block_iff}
use android_platform_system.Ext4.Geometry.Groups.{HasRoom, Starts, init_bg-Starts}

abbrev pub small_info : FsInfo
small_info = record {
  len = 60;
  block_size = 2;
  blocks_per_group = 16;
  inodes_per_group = 8;
  inode_size = 1;
  inodes = 16;
  journal_blocks = 0;
  feat_ro_compat = 1;
  feat_compat = 0;
  feat_incompat = 0;
  bg_desc_reserve_blocks = 1;
  label = [];
}

abbrev pub small_aux : FsAuxInfo
small_aux = record {
  first_data_block = 0;
  len_blocks = 30;
  inode_table_blocks = 4;
  groups = 2;
  bg_desc_blocks = 1;
  default_i_flags = 0x80;
  blocks_per_ind = 0;
  blocks_per_dind = 0;
  blocks_per_tind = 0;
}

-- The second group: 9 header blocks of the 14 that the device has.
second-HasRoom : HasRoom small_info small_aux 1
unfolding ext4_bg_has_super_block
second-HasRoom = record {
  bitmap = omega arith;
  inode_bitmap = omega arith;
  block_size = omega arith;
  ends = omega arith;
  device = omega arith;
  starts = omega arith;
  header = omega arith;
}

init_bg-Starts_example :
    (bg : BlockGroupInfo) × ((init_bg false small_info small_aux 1).0 ≡ (returns tt, bg))
    × Starts small_info small_aux 1 bg
init_bg-Starts_example = init_bg-Starts false small_info small_aux 1 second-HasRoom

ext4_bg_has_super_block_iff_example : (ext4_bg_has_super_block small_info 49 ≡ true) ↔ HasSuper 49
ext4_bg_has_super_block_iff_example = ext4_bg_has_super_block_iff small_info 49 (omega arith)
