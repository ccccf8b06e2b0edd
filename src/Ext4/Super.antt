-- ===== src/Ext4/Super.antt =====
-- The superblock and the group descriptors (ext4_utils/ext4_utils.c). A buffer from `calloc` is 0
-- where it is not written.
pub mod Log
pub mod Sizes
pub mod RoundTrip
pub mod Descs
pub mod Totals
mod Tests
use Prim.Native.Nat.{bit_and}
use android_platform_system.Prelude.{
  ℕ, zero, suc, ◌+◌, ◌-◌, ◌*◌, ◌/◌, ◌%◌, ◌^◌, Bool, true, false, ltb, ◌==◌, if◌then◌else◌, add32,
  sub32, mul32, add64, mul64, List, [], ◌∷◌, ◌++◌, replicate,
}
use android_platform_system.Ext4.Exit.{Outcome, returns, exits, faults, spins}
use android_platform_system.Ext4.BlockGroup.{BlockGroupInfo}
use android_platform_system.Ext4.Crc16.{ext4_crc16}
use android_platform_system.Ext4.Geometry.{
  FsInfo, FsAuxInfo, Chunk, ext4_bg_has_super_block, ext4_create_fs_aux_info, super_blocks,
  group_desc_size,
}

-- The loop of `log_2`. A round halves `j`, so fuel `j` is enough.
unfoldable pub log_loop : ℕ → ℕ → ℕ → ℕ
log_loop zero j i = i
log_loop (suc fuel) j i = let rest = log_loop fuel (j / 2) (suc i) in if ltb 0 j then rest else i

-- `log_2`, stored in a `u32`.
unfoldable pub log_2 : ℕ → ℕ
unfolding log_loop
log_2 j = sub32 (log_loop j j 0) 1

-- `struct ext4_super_block`, without the fields that `ext4_fill_in_sb` leaves alone or sets to 0, of
-- which `s_last_mounted` stands behind the name of the volume.
pub record SuperBlock : Type 0 where
  pub s_inodes_count : ℕ
  pub s_blocks_count_lo : ℕ
  pub s_free_blocks_count_lo : ℕ
  pub s_free_inodes_count : ℕ
  pub s_first_data_block : ℕ
  pub s_log_block_size : ℕ
  pub s_obso_log_frag_size : ℕ
  pub s_blocks_per_group : ℕ
  pub s_obso_frags_per_group : ℕ
  pub s_inodes_per_group : ℕ
  pub s_max_mnt_count : ℕ
  pub s_magic : ℕ
  pub s_state : ℕ
  pub s_errors : ℕ
  pub s_rev_level : ℕ
  pub s_first_ino : ℕ
  pub s_inode_size : ℕ
  pub s_block_group_nr : ℕ
  pub s_feature_compat : ℕ
  pub s_feature_incompat : ℕ
  pub s_feature_ro_compat : ℕ
  pub s_uuid : List ℕ
  pub s_volume_name : List ℕ
  pub s_last_mounted : List ℕ
  pub s_reserved_gdt_blocks : ℕ
  pub s_journal_inum : ℕ
  pub s_def_hash_version : ℕ
  pub s_reserved_char_pad : ℕ
  pub s_desc_size : ℕ
  pub s_blocks_count_hi : ℕ
  pub s_min_extra_isize : ℕ
  pub s_want_extra_isize : ℕ

-- `strncpy(dest, s, n)`: what it writes.
abbrev pub strncpy : ℕ → List ℕ → List ℕ
strncpy zero s = []
strncpy (suc n) [] = 0 ∷ strncpy n []
strncpy (suc n) (c ∷ s) = c ∷ strncpy n s

abbrev pub ext4_super_magic : ℕ
ext4_super_magic = 0xEF53

abbrev pub ext4_valid_fs : ℕ
ext4_valid_fs = 1

-- `ext4_fill_in_sb` up to its loop, with what `generate_uuid` gives. `struct ext4_inode` has 156 bytes.
unfoldable pub fill_in_sb : List ℕ → FsInfo → FsAuxInfo → SuperBlock
unfolding log_2
fill_in_sb uuid info aux = record {
  s_inodes_count = mul32 info.inodes_per_group aux.groups;
  s_blocks_count_lo = aux.len_blocks % 2 ^ 32;
  s_free_blocks_count_lo = 0;
  s_free_inodes_count = 0;
  s_first_data_block = aux.first_data_block;
  s_log_block_size = log_2 (info.block_size / 1024);
  s_obso_log_frag_size = log_2 (info.block_size / 1024);
  s_blocks_per_group = info.blocks_per_group;
  s_obso_frags_per_group = info.blocks_per_group;
  s_inodes_per_group = info.inodes_per_group;
  s_max_mnt_count = 0xFFFF;
  s_magic = ext4_super_magic;
  s_state = ext4_valid_fs;
  s_errors = 2;
  s_rev_level = 1;
  s_first_ino = 11;
  s_inode_size = info.inode_size % 2 ^ 16;
  s_block_group_nr = 0;
  s_feature_compat = info.feat_compat;
  s_feature_incompat = info.feat_incompat;
  s_feature_ro_compat = info.feat_ro_compat;
  s_uuid = uuid;
  s_volume_name = strncpy 16 info.label;
  s_last_mounted = replicate 64 0;
  s_reserved_gdt_blocks = info.bg_desc_reserve_blocks % 2 ^ 16;
  s_journal_inum = if bit_and info.feat_compat 4 == 0 then 0 else 8;
  s_def_hash_version = 2;
  s_reserved_char_pad = 1;
  s_desc_size = group_desc_size;
  s_blocks_count_hi = aux.len_blocks / 2 ^ 32 % 2 ^ 32;
  s_min_extra_isize = 156 - 128;
  s_want_extra_isize = 156 - 128;
}

-- `struct ext2_group_desc`, without what is reserved.
pub record GroupDesc : Type 0 where
  pub bg_block_bitmap : ℕ
  pub bg_inode_bitmap : ℕ
  pub bg_inode_table : ℕ
  pub bg_free_blocks_count : ℕ
  pub bg_free_inodes_count : ℕ
  pub bg_used_dirs_count : ℕ
  pub bg_flags : ℕ
  pub bg_checksum : ℕ

-- `aux_info.first_data_block + i * info.blocks_per_group`
abbrev pub group_start_block : FsInfo → FsAuxInfo → ℕ → ℕ
group_start_block info aux i = add32 aux.first_data_block (mul32 i info.blocks_per_group)

abbrev pub header_size : FsInfo → FsAuxInfo → ℕ → ℕ
header_size info aux i = if ext4_bg_has_super_block info i then super_blocks info aux else 0

abbrev pub group_desc : FsInfo → FsAuxInfo → ℕ → GroupDesc
group_desc info aux i =
    let start = group_start_block info aux i in
    let header = header_size info aux i in
    record {
      bg_block_bitmap = add32 start header;
      bg_inode_bitmap = add32 (add32 start header) 1;
      bg_inode_table = add32 (add32 start header) 2;
      bg_free_blocks_count = info.blocks_per_group % 2 ^ 16;
      bg_free_inodes_count = info.inodes_per_group % 2 ^ 16;
      bg_used_dirs_count = 0;
      bg_flags = 0;
      bg_checksum = 0;
    }

-- What one round of the loop adds to the sparse file.
abbrev pub super_chunks : FsInfo → FsAuxInfo → ℕ → List Chunk
super_chunks info aux i =
    let start = group_start_block info aux i in
    let descs : List Chunk =
      record { block = add32 start 1; len = mul32 aux.bg_desc_blocks info.block_size } ∷ [] in
    if ext4_bg_has_super_block info i
    then (if i == 0 then descs else record { block = start; len = info.block_size } ∷ descs)
    else []

-- The backup superblock of a round.
abbrev pub backups : FsInfo → ℕ → SuperBlock → List SuperBlock
backups info i sb =
    if ext4_bg_has_super_block info i
    then (if i == 0 then [] else record sb { s_block_group_nr = i % 2 ^ 16 } ∷ [])
    else []

pub record FilledSb : Type 0 where
  pub descs : List GroupDesc
  pub chunks : List Chunk
  pub backup_sb : List SuperBlock

-- `for (i = 0; i < aux_info.groups; i++)`, with `n` rounds left.
unfoldable pub fill_loop_sb : FsInfo → FsAuxInfo → SuperBlock → ℕ → ℕ → FilledSb
fill_loop_sb info aux sb zero i = record { descs = []; chunks = []; backup_sb = [] }
fill_loop_sb info aux sb (suc n) i =
    let rest = fill_loop_sb info aux sb n (suc i) in
    record {
      descs = group_desc info aux i ∷ rest.descs;
      chunks = super_chunks info aux i ++ rest.chunks;
      backup_sb = backups info i sb ++ rest.backup_sb;
    }

unfoldable pub ext4_fill_in_sb : List ℕ → FsInfo → FsAuxInfo → SuperBlock × FilledSb
unfolding fill_in_sb fill_loop_sb
ext4_fill_in_sb uuid info aux =
    let sb = fill_in_sb uuid info aux in (sb, fill_loop_sb info aux sb aux.groups 0)

-- The bytes of a little-endian machine.
abbrev pub bytes16 : ℕ → List ℕ → List ℕ
bytes16 x rest = x % 256 ∷ x / 256 % 256 ∷ rest

abbrev pub bytes32 : ℕ → List ℕ → List ℕ
bytes32 x rest = x % 256 ∷ x / 2 ^ 8 % 256 ∷ x / 2 ^ 16 % 256 ∷ x / 2 ^ 24 % 256 ∷ rest

-- The descriptor up to `bg_checksum`: behind the flags stand 10 bytes that are reserved.
unfoldable pub desc_bytes : GroupDesc → List ℕ
desc_bytes d = bytes32 d.bg_block_bitmap (
    bytes32 d.bg_inode_bitmap (
      bytes32 d.bg_inode_table (
        bytes16 d.bg_free_blocks_count (
          bytes16 d.bg_free_inodes_count
            (bytes16 d.bg_used_dirs_count (bytes16 d.bg_flags (replicate 10 0)))))))

-- The checksum of descriptor `i`; `~0` becomes a `u16`.
unfoldable pub desc_checksum : List ℕ → ℕ → GroupDesc → ℕ
unfolding desc_bytes
desc_checksum uuid i d =
    ext4_crc16 (ext4_crc16 (ext4_crc16 0xFFFF uuid) (bytes32 i [])) (desc_bytes d)

-- What one round of `ext4_update_free` makes of a descriptor.
unfoldable pub update_desc : List ℕ → ℕ → BlockGroupInfo → GroupDesc → GroupDesc
unfolding desc_checksum
update_desc uuid i bg d =
    let counted = record d {
      bg_free_blocks_count = bg.free_blocks % 2 ^ 16;
      bg_free_inodes_count = bg.free_inodes % 2 ^ 16;
      bg_used_dirs_count = (d.bg_used_dirs_count + bg.used_dirs) % 2 ^ 16;
      bg_flags = bg.flags % 2 ^ 16;
    } in
    record counted { bg_checksum = desc_checksum uuid i counted }

-- The loop of `ext4_update_free`, over the groups and their descriptors from number `i` on.
unfoldable pub update_free_from :
    ℕ → List BlockGroupInfo → List GroupDesc → SuperBlock → SuperBlock × List GroupDesc
unfolding update_desc
update_free_from i [] descs sb = (sb, descs)
update_free_from i (bg ∷ bgs) [] sb = (sb, [])
update_free_from i (bg ∷ bgs) (d ∷ descs) sb =
    let rest = update_free_from (suc i) bgs descs (record sb {
      s_free_blocks_count_lo = add32 sb.s_free_blocks_count_lo bg.free_blocks;
      s_free_inodes_count = add32 sb.s_free_inodes_count bg.free_inodes;
    }) in
    (rest.0, update_desc sb.s_uuid i bg d ∷ rest.1)

unfoldable pub ext4_update_free :
    List BlockGroupInfo → List GroupDesc → SuperBlock → SuperBlock × List GroupDesc
unfolding update_free_from
ext4_update_free bgs descs sb = update_free_from 0 bgs descs sb

-- Where `ext4_queue_sb` puts the superblock: the block, and the place of its 1024 bytes in it.
unfoldable pub ext4_queue_sb : FsInfo → Chunk × ℕ
ext4_queue_sb info =
    if ltb 1024 info.block_size
    then (record { block = 0; len = info.block_size }, 1024)
    else (record { block = 1; len = 1024 }, 0)

-- The bytes up to the NUL.
abbrev pub c_string : List ℕ → List ℕ
c_string [] = []
c_string (c ∷ s) = if c == 0 then [] else c ∷ c_string s

-- The parameters that `ext4_parse_sb` reads. A shift by 32 or more is left out by the hypotheses.
abbrev pub parsed_info : SuperBlock → FsInfo → FsInfo
parsed_info sb info =
    let block_size = (1024 * 2 ^ sb.s_log_block_size) % 2 ^ 32 in
    let len_blocks = add64 (sb.s_blocks_count_hi * 2 ^ 32) sb.s_blocks_count_lo in
    record info {
      len = mul64 block_size len_blocks;
      block_size = block_size;
      blocks_per_group = sb.s_blocks_per_group;
      inodes_per_group = sb.s_inodes_per_group;
      inode_size = sb.s_inode_size;
      inodes = sb.s_inodes_count;
      feat_ro_compat = sb.s_feature_ro_compat;
      feat_compat = sb.s_feature_compat;
      feat_incompat = sb.s_feature_incompat;
      bg_desc_reserve_blocks = sb.s_reserved_gdt_blocks;
      label = c_string (sb.s_volume_name ++ sb.s_last_mounted);
    }

-- The test on the first data block, behind which the function ends.
abbrev pub parse_geometry : SuperBlock → FsInfo → Outcome (FsInfo × FsAuxInfo)
parse_geometry sb info =
    let aux = ext4_create_fs_aux_info info in
    if aux.first_data_block == sb.s_first_data_block then returns (info, aux) else exits

-- `ext4_parse_sb`: it ends with the new `info` and `aux_info`. `force` lets it go on behind `error`.
unfoldable pub ext4_parse_sb : Bool → SuperBlock → FsInfo → Outcome (FsInfo × FsAuxInfo)
ext4_parse_sb force sb info =
    let rest = parse_geometry sb (parsed_info sb info) in
    if sb.s_magic == ext4_super_magic
    then (if bit_and sb.s_state ext4_valid_fs == ext4_valid_fs
        then rest
        else if force
        then rest
        else exits)
    else if force
    then rest
    else exits
