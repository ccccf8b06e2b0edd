-- ===== src/Ext4/Super/Tests.antt =====
-- The superblock and the descriptors (ext4_utils/ext4_utils.c) and the checksum (ext4_utils/crc16.c) at
-- concrete inputs.
use android_platform_system.Prelude.{
  ℕ, ◌+◌, ◌*◌, ◌≡◌, refl, true, false, List, [], ◌∷◌, some, get_elem?, arith,
}
use android_platform_system.Ext4.Exit.{returns}
use android_platform_system.Ext4.BlockGroup.{BlockGroupInfo}
use android_platform_system.Ext4.Geometry.{
  FsInfo, is_power_of, power_loop, ext4_bg_has_super_block, ext4_create_fs_aux_info, init_bg,
}
use android_platform_system.Ext4.Geometry.Tests.{small_info, small_aux}
use android_platform_system.Ext4.Crc16.{ext4_crc16, crc_byte, crc16_tab}
use android_platform_system.Ext4.Crc16.Bitwise.{crc_bitwise, ext4_crc16-bitwise}
use android_platform_system.Ext4.Super.{
  SuperBlock, GroupDesc, fill_in_sb, ext4_fill_in_sb, ext4_parse_sb, ext4_update_free, group_desc,
}
use android_platform_system.Ext4.Super.Sizes.{read_info, read_aux, desc_blocks}
use android_platform_system.Ext4.Super.RoundTrip.{Parseable, ext4_parse_sb-fill_in_sb}
use android_platform_system.Ext4.Super.Descs.{Locates, ext4_fill_in_sb-Locates}
use android_platform_system.Ext4.Super.Totals.{AllCount, ext4_update_free_lem}

-- 128 groups of 32768 blocks, and 10 blocks more, which are too few for a header.
abbrev device : FsInfo
device = record {
  len = 4096 * (128 * 32768 + 10);
  block_size = 4096;
  blocks_per_group = 32768;
  inodes_per_group = 8192;
  inode_size = 256;
  inodes = 0;
  journal_blocks = 1024;
  feat_ro_compat = 1;
  feat_compat = 4;
  feat_incompat = 0;
  bg_desc_reserve_blocks = 1022;
  label = b'a' ∷ b'b' ∷ [];
}

-- The short group is left out, but counts for the blocks of the descriptors.
device_groups : (ext4_create_fs_aux_info device).groups ≡ 128
unfolding ext4_create_fs_aux_info ext4_bg_has_super_block is_power_of power_loop
device_groups = refl

device_desc_blocks : (ext4_create_fs_aux_info device).bg_desc_blocks ≡ 2
unfolding ext4_create_fs_aux_info ext4_bg_has_super_block is_power_of power_loop
device_desc_blocks = refl

read_desc_blocks : desc_blocks 4096 128 ≡ 1
read_desc_blocks = refl

device-Parseable : Parseable device
device-Parseable = record {
  exponent = 2;
  power = refl;
  exponent_min = omega arith;
  size_max = omega arith;
  inode_size = omega arith;
  reserved = omega arith;
  label_text = (refl, (refl, tt));
  label_length = omega arith;
  a_block = omega arith;
  blocks = omega arith;
}

ext4_parse_sb-fill_in_sb_example :
    ext4_parse_sb false (fill_in_sb [] device (ext4_create_fs_aux_info device)) small_info
    ≡ returns (
      read_info small_info device (ext4_create_fs_aux_info device),
      read_aux device (ext4_create_fs_aux_info device),
    )
ext4_parse_sb-fill_in_sb_example =
    ext4_parse_sb-fill_in_sb false [] small_info device device-Parseable

ext4_fill_in_sb-Locates_example :
    (d : GroupDesc) × (get_elem? (ext4_fill_in_sb [] small_info small_aux).1.descs 1 ≡ some d)
    × Locates small_info small_aux 1 (init_bg false small_info small_aux 1).1 d
ext4_fill_in_sb-Locates_example =
    ext4_fill_in_sb-Locates [] false small_info small_aux 1 (omega arith) (omega arith)
      (omega arith)

abbrev one_group : List BlockGroupInfo
one_group =
    record {
      first_block = 0;
      header_blocks = 9;
      data_blocks_used = 0;
      has_superblock = true;
      block_bitmap = 255 ∷ 1 ∷ [];
      inode_bitmap = 0 ∷ 0 ∷ [];
      has_inode_table = false;
      free_blocks = 7;
      first_free_block = 9;
      free_inodes = 8;
      first_free_inode = 1;
      flags = 1;
      used_dirs = 0;
    }
    ∷ []

abbrev one_desc : List GroupDesc
one_desc = group_desc small_info small_aux 0 ∷ []

abbrev written : SuperBlock
written = fill_in_sb [] small_info small_aux

ext4_update_free_lem_example :
    ((ext4_update_free one_group one_desc written).0.s_free_blocks_count_lo ≡ 7)
    × ((ext4_update_free one_group one_desc written).0.s_free_inodes_count ≡ 8)
    × AllCount [] 0 one_group one_desc (ext4_update_free one_group one_desc written).1
unfolding fill_in_sb
ext4_update_free_lem_example =
    ext4_update_free_lem one_group one_desc written (omega arith) refl refl refl (omega arith)
      (omega arith)

abbrev nine_digits : List ℕ
nine_digits = b'1' ∷ b'2' ∷ b'3' ∷ b'4' ∷ b'5' ∷ b'6' ∷ b'7' ∷ b'8' ∷ b'9' ∷ []

check_value : ext4_crc16 0xFFFF nine_digits ≡ 0x4B37
unfolding ext4_crc16 crc_byte crc16_tab
check_value = refl

ext4_crc16-bitwise_example : ext4_crc16 0xFFFF nine_digits ≡ crc_bitwise 0xFFFF nine_digits
ext4_crc16-bitwise_example = ext4_crc16-bitwise 0xFFFF nine_digits (omega arith)
