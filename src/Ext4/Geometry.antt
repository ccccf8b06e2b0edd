-- ===== src/Ext4/Geometry.antt =====
-- The shape of the file system (ext4_utils/ext4_utils.c): which groups have a backup superblock, and
-- the parameters that `ext4_create_fs_aux_info` computes; and the state in which `init_bg`
-- (ext4_utils/allocate.c) starts a block group.
pub mod Powers
pub mod Groups
pub mod Tests
use Prim.Native.Nat.{bit_and}
use android_platform_system.Prelude.{
  ℕ, zero, suc, ◌+◌, ◌-◌, ◌*◌, ◌/◌, ◌%◌, ◌^◌, Bool, true, false, not, ◌&&◌, ◌||◌, ltb, ◌==◌,
  if◌then◌else◌, add32, sub32, mul32, add64, sub64, div_round_up32, replicate, List,
}
use android_platform_system.Ext4.Exit.{Outcome, returns, exits, faults, spins, error}
use android_platform_system.Ext4.BlockGroup.{BlockGroupInfo, reserve_blocks}

-- `struct fs_info`, without `no_journal` and the sparse file. The label is the list of its bytes.
pub record FsInfo : Type 0 where
  pub len : ℕ
  pub block_size : ℕ
  pub blocks_per_group : ℕ
  pub inodes_per_group : ℕ
  pub inode_size : ℕ
  pub inodes : ℕ
  pub journal_blocks : ℕ
  pub feat_ro_compat : ℕ
  pub feat_compat : ℕ
  pub feat_incompat : ℕ
  pub bg_desc_reserve_blocks : ℕ
  pub label : List ℕ

-- `struct fs_aux_info`, without its pointers.
pub record FsAuxInfo : Type 0 where
  pub first_data_block : ℕ
  pub len_blocks : ℕ
  pub inode_table_blocks : ℕ
  pub groups : ℕ
  pub bg_desc_blocks : ℕ
  pub default_i_flags : ℕ
  pub blocks_per_ind : ℕ
  pub blocks_per_dind : ℕ
  pub blocks_per_tind : ℕ

-- `while (a > b)` of `is_power_of`. A round divides by `b`, so fuel `a` is enough if `b` is at
-- least 2.
unfoldable pub power_loop : ℕ → ℕ → ℕ → Bool
power_loop zero a b = false
power_loop (suc fuel) a b =
    let rest = power_loop fuel (a / b) b in
    if ltb b a then (if a % b == 0 then rest else false) else a == b

unfoldable pub is_power_of : ℕ → ℕ → Bool
is_power_of a b = power_loop (suc a) a b

-- EXT4_FEATURE_RO_COMPAT_SPARSE_SUPER is 1.
unfoldable pub ext4_bg_has_super_block : FsInfo → ℕ → Bool
ext4_bg_has_super_block info bg =
    if bit_and info.feat_ro_compat 1 == 0
    then true
    else if bg == 0 || bg == 1
    then true
    else is_power_of bg 3 || (is_power_of bg 5 || is_power_of bg 7)

-- `sizeof(struct ext2_group_desc)`
abbrev pub group_desc_size : ℕ
group_desc_size = 32

-- The parameters before the last group is looked at. EXT4_NOATIME_FL is 0x80.
unfoldable pub sizes : FsInfo → FsAuxInfo
sizes info =
    let first_data_block : ℕ = if ltb 1024 info.block_size then 0 else 1 in
    let len_blocks = info.len / info.block_size in
    let groups =
      sub64 (add64 (sub64 len_blocks first_data_block) info.blocks_per_group) 1
      / info.blocks_per_group
      % 2 ^ 32 in
    let blocks_per_ind = info.block_size / 4 in
    let blocks_per_dind = mul32 blocks_per_ind blocks_per_ind in
    record {
      first_data_block = first_data_block;
      len_blocks = len_blocks;
      inode_table_blocks =
          div_round_up32 (mul32 info.inodes_per_group info.inode_size) info.block_size;
      groups = groups;
      bg_desc_blocks = (groups * group_desc_size + info.block_size - 1) / info.block_size % 2 ^ 32;
      default_i_flags = 0x80;
      blocks_per_ind = blocks_per_ind;
      blocks_per_dind = blocks_per_dind;
      blocks_per_tind = mul32 blocks_per_dind blocks_per_dind;
    }

-- `1 + aux_info.bg_desc_blocks + info.bg_desc_reserve_blocks`
abbrev pub super_blocks : FsInfo → FsAuxInfo → ℕ
super_blocks info aux = add32 (add32 1 aux.bg_desc_blocks) info.bg_desc_reserve_blocks

-- `ext4_create_fs_aux_info`, without the buffers that it allocates: a last group that is too short
-- for its header is left out.
unfoldable pub ext4_create_fs_aux_info : FsInfo → FsAuxInfo
unfolding sizes
ext4_create_fs_aux_info info =
    let aux = sizes info in
    let last_group_size = aux.len_blocks % info.blocks_per_group in
    let last_header_size =
      if ext4_bg_has_super_block info (sub32 aux.groups 1)
      then add32 (add32 2 aux.inode_table_blocks) (super_blocks info aux)
      else add32 2 aux.inode_table_blocks in
    if ltb 0 last_group_size && ltb last_group_size last_header_size
    then record aux {
      groups = sub32 aux.groups 1;
      len_blocks = sub64 aux.len_blocks last_group_size;
    }
    else aux

-- What `sparse_file_add_data` is given: the block and the number of bytes.
pub record Chunk : Type 0 where
  pub block : ℕ
  pub len : ℕ

-- `header_blocks` of `init_bg`.
abbrev pub header_blocks : FsInfo → FsAuxInfo → ℕ → ℕ
header_blocks info aux i =
    if ext4_bg_has_super_block info i
    then add32 (add32 2 aux.inode_table_blocks) (super_blocks info aux)
    else add32 2 aux.inode_table_blocks

-- The fields that `init_bg` sets before it reserves blocks. EXT4_BG_INODE_UNINIT is 1; fields that
-- it leaves alone are 0 from `calloc`.
abbrev pub fresh_bg : FsInfo → FsAuxInfo → ℕ → BlockGroupInfo
fresh_bg info aux i = record {
  first_block = add32 aux.first_data_block (mul32 i info.blocks_per_group);
  header_blocks = header_blocks info aux i;
  data_blocks_used = 0;
  has_superblock = ext4_bg_has_super_block info i;
  block_bitmap = replicate info.block_size 0;
  inode_bitmap = replicate info.block_size 0;
  has_inode_table = false;
  free_blocks = info.blocks_per_group;
  first_free_block = 0;
  free_inodes = info.inodes_per_group;
  first_free_inode = 1;
  flags = 1;
  used_dirs = 0;
}

-- The chunk with the two bitmaps.
abbrev pub bitmaps_chunk : FsInfo → FsAuxInfo → BlockGroupInfo → Chunk
bitmaps_chunk info aux bg = record {
  block =
      if bg.has_superblock then add32 bg.first_block (super_blocks info aux) else bg.first_block;
  len = mul32 2 info.block_size;
}

-- The blocks of the group behind the end of the device are reserved; the result of this call is
-- not looked at. For a group that ends before the device does, the difference wraps.
abbrev pub reserve_overrun :
    Bool → FsInfo → FsAuxInfo → BlockGroupInfo → Outcome Bool × BlockGroupInfo
reserve_overrun force info aux bg =
    let overrun = sub64 (add32 bg.first_block info.blocks_per_group) aux.len_blocks % 2 ^ 32 in
    if ltb 0 overrun
    then reserve_blocks force bg (sub32 info.blocks_per_group overrun) overrun
    else (returns true, bg)

-- The first reservation failed: `error` is called.
abbrev pub after_header :
    Bool → FsInfo → FsAuxInfo → Outcome Bool × BlockGroupInfo → Outcome Bool × BlockGroupInfo
after_header force info aux (returns true, bg) = reserve_overrun force info aux bg
after_header force info aux (returns false, bg) =
    if force then reserve_overrun force info aux bg else (exits, bg)
after_header force info aux (exits, bg) = (exits, bg)
after_header force info aux (faults, bg) = (faults, bg)
after_header force info aux (spins, bg) = (spins, bg)

-- What `reserve_blocks` returned is not looked at.
abbrev pub ignored : Outcome Bool × BlockGroupInfo → Outcome (Unit {0}) × BlockGroupInfo
ignored (returns _, bg) = (returns tt, bg)
ignored (exits, bg) = (exits, bg)
ignored (faults, bg) = (faults, bg)
ignored (spins, bg) = (spins, bg)

unfoldable pub init_bg :
    Bool → FsInfo → FsAuxInfo → ℕ → (Outcome (Unit {0}) × BlockGroupInfo) × Chunk
init_bg force info aux i =
    let bg = fresh_bg info aux i in
    let reserved = reserve_blocks force bg bg.first_free_block bg.header_blocks in
    (ignored (after_header force info aux reserved), bitmaps_chunk info aux bg)
